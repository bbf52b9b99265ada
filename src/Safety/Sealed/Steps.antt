-- ===== src/Safety/Sealed/Steps.antt =====
-- Every step of the driver keeps the queue's events whole.
use wazabi_edr_driver.Base.{
  ℕ, ◌+◌, ◌≡◌, ◌≢◌, ◌≤◌, ◌⊎◌, inl, inr, refl, sym, subst, ◌∙◌, arith, List, ◌∷◌, map, count,
  ℕ_discrete,
}
use wazabi_edr_driver.Wdk.{Ptr, null, Kernel}
use wazabi_edr_driver.State.{Slot, World}
use wazabi_edr_driver.Events.Event.{Event, event_bytes, event_size}
use wazabi_edr_driver.Ring.{queue_push_locked}
use wazabi_edr_driver.Ring.Refine.{contents, pushed, contents-pushed}
use wazabi_edr_driver.Submit.{alloc_event, submit_event}
use wazabi_edr_driver.Callbacks.Header.{write_block, submit}
use wazabi_edr_driver.Callbacks.Kept.{Kept}
use wazabi_edr_driver.Safety.{allocated, freed, blocks}
use wazabi_edr_driver.Safety.Blocks.{Owned, alloc_event-Owned, count-pushed}
use wazabi_edr_driver.Safety.Callbacks.{Owned-Kept}
use wazabi_edr_driver.Safety.Sealed.{AllHold, Sealed, Fresh, AllHold-update, AllHold-fifo_push}

-- `alloc_event` answers what the pool does, and leaves the queue and the blocks alone.
alloc_event-frame :
    (k : Kernel) (size : ℕ) (w : World)
    → let (b, w') = alloc_event k size w in
      (b ≡ k.ex_allocate_pool2 w.log size) × (w'.queue ≡ w.queue) × (w'.pool ≡ w.pool)
unfolding alloc_event
alloc_event-frame k size w = (ground arith, ground arith, ground arith)

module _ (Good : Event → Type 0) where
  -- Rebuilding the invariant when the queue and the blocks are as they were.
  pub reseal :
      (held held' : List Ptr) (w w' : World)
      → ((p : Ptr) → Owned p held' w')
      → w'.queue ≡ w.queue
      → w'.pool ≡ w.pool
      → ((p : Ptr) → count p (blocks w.queue) + count p held' ≤ 1)
      → Sealed Good held w
      → Sealed Good held' w'
  reseal held held' w w' owned q m once s = record {
    owned = owned;
    once = λ p. subst (λ r. count p (blocks r) + count p held' ≤ 1) (sym q) (once p);
    sealed =
        subst (λ r. AllHold Good w'.pool (contents r)) (sym q)
          (subst (λ f. AllHold Good f (contents w.queue)) (sym m) s.sealed);
  }

  module _ (k : Kernel) (fresh : Fresh k) (held : List Ptr) where
    null-Owned :
        (size : ℕ) (w : World) (p : Ptr)
        → Owned p held w
        → (alloc_event k size w).0 ≡ null
        → Owned p held (alloc_event k size w).1
    null-Owned size w p o e = elim (alloc_event-Owned k p held size w o) [
      | inl (_, o') ↦ o'
      | inr (n, _) ↦ absurd (n e)
    ]

    block-Owned :
        (size : ℕ) (w : World) (p : Ptr)
        → Owned p held w
        → (alloc_event k size w).0 ≢ null
        → Owned p ((alloc_event k size w).0 ∷ held) (alloc_event k size w).1
    block-Owned size w p o n = elim (alloc_event-Owned k p held size w o) [
      | inl (e, _) ↦ absurd (n e)
      | inr (_, o') ↦ o'
    ]

    -- A block that is handed out was neither queued nor held.
    new_unused :
        (size : ℕ) (w : World)
        → Sealed Good held w
        → (alloc_event k size w).0 ≢ null
        → let b = (alloc_event k size w).0 in count b (blocks w.queue) + count b held ≡ 0
    new_unused size w s n =
        let b = (alloc_event k size w).0 in
        let answer = (alloc_event-frame k size w).0 in
        let returned : allocated b w.log ≤ freed b w.log =
          subst (λ x. allocated x w.log ≤ freed x w.log) (sym answer)
            (fresh.unused w.log size (λ z. n (answer ∙ z))) in
        let balance = (s.owned b).balance in omega (arith, returned, balance)

    new_once :
        (size : ℕ) (w : World)
        → Sealed Good held w
        → (alloc_event k size w).0 ≢ null
        → (p : Ptr) → count p (blocks w.queue) + count p ((alloc_event k size w).0 ∷ held) ≤ 1
    new_once size w s n p =
        let b = (alloc_event k size w).0 in
        let zero_ = new_unused size w s n in
        elim (ℕ_discrete b p) [
          | yes e ↦ subst (λ x. count x (blocks w.queue) + count x (b ∷ held) ≤ 1) e (ground arith)
          | no d ↦ (let one = s.once p in ground arith)
        ]

    alloc_event-Sealed :
        (size : ℕ) (w : World)
        → Sealed Good held w
        → let (b, w') = alloc_event k size w in
          ((b ≡ null) × Sealed Good held w') ⊎ ((b ≢ null) × Sealed Good (b ∷ held) w')
    alloc_event-Sealed size w s =
        let b = (alloc_event k size w).0 in
        let w' = (alloc_event k size w).1 in
        let (answer, q, m) = alloc_event-frame k size w in
        elim (ℕ_discrete b null) [
          | yes e ↦
              inl (e, reseal held held w w' (λ p. null-Owned size w p (s.owned p) e) q m s.once s)
          | no n ↦ inr (
            n,
            reseal held (b ∷ held) w w' (λ p. block-Owned size w p (s.owned p) n) q m
                (new_once size w s n) s,
          )
        ]

  write_block-Sealed :
      (k : Kernel) (held : List Ptr) (p : Ptr) (bytes : List ℕ) (w : World)
      → Sealed Good (p ∷ held) w
      → Sealed Good (p ∷ held) (write_block p bytes w).1
  unfolding write_block blocks
  write_block-Sealed k held p bytes w s =
      let one = s.once p in
      let unqueued : count p (map (λ x. x.block) (contents w.queue)) ≡ 0 = ground arith in
      record {
        owned = λ q. (Owned-Kept k Good q).writes held p bytes w (s.owned q);
        once = s.once;
        sealed = AllHold-update Good w.pool p bytes (contents w.queue) unqueued s.sealed;
      }

  -- What submitting does to the queue; it writes to no block.
  submit_event-frame :
      (k : Kernel) (b : Ptr) (size : ℕ) (w : World)
      → let w' = (submit_event k b size w).1 in
        (w'.pool ≡ w.pool)
        × ((w'.queue ≡ w.queue) ⊎ (w'.queue ≡ pushed (record { block = b; size = size }) w.queue))
  unfolding submit_event queue_push_locked
  submit_event-frame k b size w = (ground arith, ground arith)

  written_there : (p : Ptr) (bytes : List ℕ) (w : World) → (write_block p bytes w).1.pool p ≡ bytes
  unfolding write_block
  written_there p bytes w = ground arith

  -- A push keeps blocks single and events whole.
  push-Sealed :
      (held : List Ptr) (p : Ptr) (e : Event) (w w' : World)
      → Good e
      → w.pool p ≡ event_bytes e
      → ((q : Ptr) → Owned q held w')
      → w'.queue ≡ pushed (record { block = p; size = event_size e }) w.queue
      → w'.pool ≡ w.pool
      → Sealed Good (p ∷ held) w
      → Sealed Good held w'
  push-Sealed held p e w w' wf bytes owned q m s =
      let slot : Slot = record { block = p; size = event_size e } in
      let v = (s.owned p).valid in
      record {
        owned = owned;
        once = λ x.
            subst (λ r. count x (blocks r) + count x held ≤ 1) (sym q)
              (let a = count-pushed x slot w.queue v in let b = s.once x in omega (arith, a, b));
        sealed =
            subst (λ r. AllHold Good w'.pool (contents r)) (sym q)
              (subst (λ f. AllHold Good f (contents (pushed slot w.queue))) (sym m)
                (subst (AllHold Good w.pool) (sym (contents-pushed slot w.queue v)) (
                  AllHold-fifo_push Good w.pool slot (contents w.queue) s.sealed
                    (e, wf, refl, bytes))));
      }

  submit-Sealed :
      (k : Kernel) (held : List Ptr) (p : Ptr) (e : Event) (w : World)
      → Good e
      → Sealed Good (p ∷ held) w
      → Sealed Good held (submit k p e w).1
  unfolding submit
  submit-Sealed k held p e w wf s =
      let w1 = (write_block p (event_bytes e) w).1 in
      let s1 = write_block-Sealed k held p (event_bytes e) w s in
      let w2 = (submit_event k p (event_size e) w1).1 in
      let (m, q) = submit_event-frame k p (event_size e) w1 in
      let owned : (x : Ptr) → Owned x held w2 =
        λ x. (Owned-Kept k Good x).submits held p e w wf (s.owned x) in
      elim q [
        | inl same ↦
            reseal (p ∷ held) held w1 w2 owned same m
              (λ x. let one = s1.once x in omega (arith, one)) s1
        | inr more ↦
            push-Sealed held p e w1 w2 wf (written_there p (event_bytes e) w) owned more m s1
      ]

  pub Sealed-Kept : (k : Kernel) → Fresh k → Kept k Good (Sealed Good)
  Sealed-Kept k fresh = record {
    allocs = λ held size w s. alloc_event-Sealed k fresh held size w s;
    writes = λ held p bytes w s. write_block-Sealed k held p bytes w s;
    takes = λ held w s. record {
      owned = λ x. (Owned-Kept k Good x).takes held w (s.owned x);
      once = s.once;
      sealed = s.sealed;
    };
    cuts = λ held w s. record {
      owned = λ x. (Owned-Kept k Good x).cuts held w (s.owned x);
      once = s.once;
      sealed = s.sealed;
    };
    names = λ held o w s. record {
      owned = λ x. (Owned-Kept k Good x).names held o w (s.owned x);
      once = s.once;
      sealed = s.sealed;
    };
    submits = λ held p e w wf s. submit-Sealed k held p e w wf s;
  }
