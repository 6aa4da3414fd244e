-- ===== src/Sched/Sleep/Inv.antt =====
-- The agreement of the sleep tree of src/lthread_sched.c with the state flags.
use lthread.Base.{ℕ, ◌≡◌, refl, true, false, Bool-cases, inl, inr, some, arith, update}
use lthread.Rb.{RbTree}
use lthread.Rb.Laws.{IsSorted}
use lthread.Rb.Tree.{find-insert_tree, insert-Sorted, insert_free, find-remove_tree, remove-Sorted}
use lthread.Sched.State.{sleeping, Lthread, Sched, has}
use lthread.Sched.Sleep.{desched_sleep}

module _ ⦃T : RbTree⦄ where
  -- A thread is in the tree, under its own `sleep_usecs`, exactly when its flag says that it sleeps.
  pub record Agrees (lt : ℕ → Lthread) (t : T.Tree) : Type 0 where
    pub sorted : IsSorted (T.entries t)
    pub flagged_in : (p : ℕ) → (lt p).state sleeping ≡ true → T.find (lt p).sleep_usecs t ≡ some p
    pub in_flagged :
        (k p : ℕ) → T.find k t ≡ some p → ((lt p).state sleeping ≡ true) × ((lt p).sleep_usecs ≡ k)

  abbrev pub SleepersAgree : Sched → Type 0
  SleepersAgree s = Agrees s.lt s.sleep_tree

  -- Equal memory and tree agree alike.
  pub Agrees-of_eq :
      {lt lt' : ℕ → Lthread} {t t' : T.Tree} → lt' ≡ lt → t' ≡ t → Agrees lt t → Agrees lt' t'
  Agrees-of_eq e f a = rw (e, f) a

  -- A write that leaves the flag and the key of its thread alone
  pub update-Agrees :
      (lt : ℕ → Lthread) (t : T.Tree) (p : ℕ) (l : Lthread)
      → l.state sleeping ≡ (lt p).state sleeping
      → l.sleep_usecs ≡ (lt p).sleep_usecs
      → Agrees lt t
      → Agrees (update lt p l) t
  update-Agrees lt t p l e k a = record {
    sorted = a.sorted;
    flagged_in = λ q h. ground (arith, a.flagged_in q);
    in_flagged = λ j q h. ground (arith, a.in_flagged j q h);
  }

  -- or of a thread that does not sleep before and after
  pub update_awake-Agrees :
      (lt : ℕ → Lthread) (t : T.Tree) (p : ℕ) (l : Lthread)
      → l.state sleeping ≡ false
      → (lt p).state sleeping ≡ false
      → Agrees lt t
      → Agrees (update lt p l) t
  update_awake-Agrees lt t p l e k a = record {
    sorted = a.sorted;
    flagged_in = λ q h. ground (arith, a.flagged_in q);
    in_flagged = λ j q h. ground (arith, a.in_flagged j q h);
  }

  -- Taking a sleeping thread out of the tree, with its flag cleared.
  pub remove-Agrees :
      (lt : ℕ → Lthread) (t : T.Tree) (p : ℕ) (l : Lthread)
      → (lt p).state sleeping ≡ true
      → l.state sleeping ≡ false
      → Agrees lt t
      → Agrees (update lt p l) (T.remove (lt p).sleep_usecs t)
  remove-Agrees lt t p l e k a = record {
    sorted = remove-Sorted t (lt p).sleep_usecs a.sorted;
    flagged_in = λ q h. ground (
      arith,
      a.flagged_in q,
      a.flagged_in p e,
      find-remove_tree t (lt p).sleep_usecs (lt q).sleep_usecs a.sorted,
    );
    in_flagged = λ j q h. ground (
      arith,
      a.in_flagged j q,
      a.flagged_in p e,
      find-remove_tree t (lt p).sleep_usecs j a.sorted,
    );
  }

  -- Putting an awake thread into the tree, with its flag set and its key written.
  pub insert-Agrees :
      (lt : ℕ → Lthread) (t : T.Tree) (p k : ℕ) (l : Lthread) {t' : T.Tree}
      → T.insert k p t ≡ some t'
      → (lt p).state sleeping ≡ false
      → l.state sleeping ≡ true
      → l.sleep_usecs ≡ k
      → Agrees lt t
      → Agrees (update lt p l) t'
  insert-Agrees lt t p k l {t'} e awake asleep key a = record {
    sorted = insert-Sorted t k p e a.sorted;
    flagged_in = λ q h. ground (
      arith,
      a.flagged_in q,
      insert_free t k p e a.sorted,
      find-insert_tree t k p e k,
      find-insert_tree t k p e (lt q).sleep_usecs,
    );
    in_flagged = λ j q h. ground (arith, a.in_flagged j q, find-insert_tree t k p e j);
  }

  pub desched_sleep-Agrees :
      (p : ℕ) (s : Sched) → SleepersAgree s → SleepersAgree (desched_sleep p s)
  unfolding desched_sleep
  desched_sleep-Agrees p s a = elim (Bool-cases (has p sleeping s)) [
    | inl asleep ↦ rw asleep (remove-Agrees s.lt s.sleep_tree p _ asleep refl a)
    | inr awake ↦ rw awake a
  ]
