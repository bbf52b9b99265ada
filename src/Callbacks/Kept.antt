-- ===== src/Callbacks/Kept.antt =====
-- What an invariant must satisfy to survive every callback. The callbacks' proofs take it as
-- a parameter, and each invariant of the driver supplies it.
use wazabi_edr_driver.Base.{
  ℕ, ◌≡◌, ◌≢◌, refl, ◌⊎◌, inl, inr, List, ◌∷◌, Option, none, some, ==_false, ==_true,
}
use wazabi_edr_driver.Wdk.{Ptr, null, Kernel, get_key_name, release_key_name}
use wazabi_edr_driver.State.{World, add_u32, M, ◌>>=◌}
use wazabi_edr_driver.Events.{EventType, event_type_code, event_version, EventHeader}
use wazabi_edr_driver.Events.Event.{Event, event_header, event_size, event_type, HasArrays}
use wazabi_edr_driver.Submit.{alloc_event}
use wazabi_edr_driver.Callbacks.Header.{
  write_block, alloc_event_for, submit, unless_null, add_trunc,
}

-- The header that belongs to a type and a size.
pub record HeaderFor (t : EventType) (size : ℕ) (h : EventHeader) : Type 0 where
  pub version : h.version ≡ event_version
  pub type_ : h.type_ ≡ event_type_code t
  pub size_ : h.size ≡ size

-- An event as the agent may expect it: the current version, the type that goes with its structure, its
-- structure's size, and arrays of their declared lengths.
pub record WellFormed (e : Event) : Type 0 where
  pub header : HeaderFor (event_type e) (event_size e) (event_header e)
  pub arrays : HasArrays e

-- `P held w`: the invariant, while a callback owns the blocks of `held` and submits events that are `Good`.
pub record Kept (k : Kernel) (Good : Event → Type 0) (P : List Ptr → World → Type 0) : Type 0 where
  pub allocs :
      (held : List Ptr) (size : ℕ) (w : World)
      → P held w
      → let (b, w') = alloc_event k size w in
        ((b ≡ null) × P held w') ⊎ ((b ≢ null) × P (b ∷ held) w')
  pub writes :
      (held : List Ptr) (p : Ptr) (bytes : List ℕ) (w : World)
      → P (p ∷ held) w
      → P (p ∷ held) (write_block p bytes w).1
  pub takes :
      (held : List Ptr) (w : World)
      → P held w
      → P held (record w { drop_count = 0; trunc_count = 0 })
  pub cuts :
      (held : List Ptr) (w : World)
      → P held w
      → P held (record w { trunc_count = add_u32 w.trunc_count 1 })
  pub names :
      (held : List Ptr) (o : Ptr) (w : World)
      → P held w
      → P held (record w { log = release_key_name o ∷ get_key_name o ∷ w.log })
  pub submits :
      (held : List Ptr) (p : Ptr) (e : Event) (w : World)
      → Good e
      → P (p ∷ held) w
      → P held (submit k p e w).1

-- Well-formed events of a kind are good.
abbrev pub Covers : (Event → Type 0) → (Event → Type 0) → Type 0
Covers Good Kind = (e : Event) → WellFormed e → Kind e → Good e

module _ {k : Kernel} {Good : Event → Type 0} {P : List Ptr → World → Type 0} (kept : Kept k Good P)
    (held : List Ptr) where
  pub add_trunc-Kept : (w : World) → P held w → P held (add_trunc w).1
  unfolding add_trunc
  add_trunc-Kept w q = kept.cuts held w q

  -- `alloc_event_for` gives nothing, or a block that the caller owns with the header of the type.
  abbrev Allocated : ℕ → EventType → Option (Ptr × EventHeader) → World → Type 0
  Allocated size t r w' =
      ((r ≡ none) × P held w')
      ⊎ ((p : Ptr) × (h : EventHeader) × (r ≡ some (p, h)) × HeaderFor t size h × P (p ∷ held) w')

  alloc_event_for-Kept :
      (size : ℕ) (t : EventType) (w : World)
      → P held w
      → let (r, w') = alloc_event_for k size t w in Allocated size t r w'
  unfolding alloc_event_for
  alloc_event_for-Kept size t w q = elim (kept.allocs held size w q) [
    | inl (e, q') ↦
        let null? = ==_true (alloc_event k size w).0 null e in
        rw (null?, alloc_event_for) (inl (refl, q'))
    | inr (ne, q') ↦
        let block? = ==_false (alloc_event k size w).0 null ne in
        rw (block?, alloc_event_for)
          (inr (
            _,
            _,
            refl,
            record { version = refl; type_ = refl; size_ = refl },
            kept.writes held _ _ _ (kept.takes _ _ (kept.writes held _ _ _ q')),
          ))
  ]

  -- The shape of every emitter: allocate, return on null, and fill and submit otherwise.
  pub emit-Kept :
      (size : ℕ) (t : EventType) (body : Ptr → EventHeader → M (Unit {0})) (w : World)
      → ((p : Ptr) (h : EventHeader) (w' : World)
          → HeaderFor t size h
          → P (p ∷ held) w'
          → P held (body p h w').1)
      → P held w
      → P held ((alloc_event_for k size t >>= λ evt. unless_null evt body) w).1
  emit-Kept size t body w rest q = elim (alloc_event_for-Kept size t w q) [
    | inl (e, q') ↦ rw (e, unless_null) q'
    | inr (p, h, e, hf, q') ↦ rw (e, unless_null) (rest p h _ hf q')
  ]
