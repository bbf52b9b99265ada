-- ===== src/Ring/Refine.antt =====
-- The ring as a bounded FIFO that evicts its oldest entry.

use wazabi_edr_driver.Base.{
  ℕ, zero, suc, ◌+◌, ◌-◌, ◌%◌, ◌≡◌, ◌≢◌, ◌<◌, refl, ap, ap₂, ◌∙◌, Bool, true, ◌⊎◌, inl, inr,
  ℕ_discrete, none, some, List, [], ◌∷◌, ◌++◌, arith, length, drop, if◌then◌else◌, ◌==◌,
}
use wazabi_edr_driver.Wdk.{Ptr, free}
use wazabi_edr_driver.State.{Slot, Ring, World, queue_cap, update, add_u32}
use wazabi_edr_driver.Ring.{advance_head, store_tail, queue_push_locked, queue_pop_locked}
use wazabi_edr_driver.Ring.Inv.{IsValid, queue_push_locked-IsValid}

-- The `n` entries from index `h` on, going round at `queue_cap`.
abbrev pub window : (ℕ → Slot) → ℕ → ℕ → List Slot
window buf h zero = []
window buf h (suc n) = buf h ∷ window buf ((h + 1) % queue_cap) n

-- The live entries, oldest first.
unfoldable pub contents : Ring → List Slot
contents q = window q.buf q.head q.len

length-window : (buf : ℕ → Slot) (h n : ℕ) → length (window buf h n) ≡ n
length-window buf h zero = refl
length-window buf h (suc n) = ap suc (length-window buf ((h + 1) % queue_cap) n)

pub length-contents : (q : Ring) → length (contents q) ≡ q.len
unfolding contents
length-contents q = length-window q.buf q.head q.len

update_self : (buf : ℕ → Slot) (i : ℕ) (s : Slot) → update buf i s i ≡ s
update_self buf i s = ground arith

update_ne : (buf : ℕ → Slot) (i j : ℕ) (s : Slot) → i ≢ j → update buf i s j ≡ buf j
update_ne buf i j s h = ground arith

-- Writing just past a window extends it by that entry.
window-update :
    (buf : ℕ → Slot) (s : Slot) (n h i : ℕ)
    → h < queue_cap
    → n < queue_cap
    → i ≡ (h + n) % queue_cap
    → window (update buf i s) h (suc n) ≡ window buf h n ++ s ∷ []
window-update buf s zero h i hh hn e =
    ap (λ t. t ∷ []) (ap (update buf i s) omega arith ∙ update_self buf i s)
window-update buf s (suc n) h i hh hn e =
    ap₂ ◌∷◌ (update_ne buf i h s (omega arith))
      (window-update buf s n ((h + 1) % queue_cap) i (omega arith) (omega arith) (omega arith))

-- `window` matches on `suc`, the code tests `*len == 0`.
window_of_ne_zero :
    (buf : ℕ → Slot) (h n : ℕ)
    → n ≢ 0
    → window buf h n ≡ buf h ∷ window buf ((h + 1) % queue_cap) (n - 1)
window_of_ne_zero buf h zero p = absurd (p refl)
window_of_ne_zero buf h (suc n) p = ap (λ k. window buf h (suc k)) (omega arith)

pub contents-advance_head :
    (q : Ring) → IsValid q → q.len ≢ 0 → contents q ≡ q.buf q.head ∷ contents (advance_head q)
unfolding contents
contents-advance_head q v p =
    window_of_ne_zero q.buf q.head q.len p
    ∙ ap (λ h. q.buf q.head ∷ window q.buf h (q.len - 1)) (omega arith)

pub contents-store_tail :
    (s : Slot) (q : Ring)
    → IsValid q
    → q.len < queue_cap
    → contents (store_tail s q) ≡ contents q ++ s ∷ []
unfolding contents
contents-store_tail s q v p =
    ap (window (update q.buf q.tail s) q.head) {y = suc q.len} (omega arith)
    ∙ window-update q.buf s q.len q.head q.tail v.head_in p v.tail_at

pub contents-empty : (q : Ring) → q.len ≡ 0 → contents q ≡ []
unfolding contents
contents-empty q e = ap (window q.buf q.head) e

pub advance_head-IsValid : (q : Ring) → IsValid q → q.len ≢ 0 → IsValid (advance_head q)
advance_head-IsValid q v p = omega arith

-- What a bounded queue does on a push: when it is full its oldest entry makes room.
unfoldable pub fifo_push : List Slot → Slot → List Slot
fifo_push xs s = (if length xs == queue_cap then drop 1 xs else xs) ++ s ∷ []

-- What a push leaves in the ring, and the log.
abbrev pub is_full : Ring → Bool
is_full q = q.len == queue_cap

abbrev pub pushed : Slot → Ring → Ring
pushed s q = store_tail s (if is_full q then advance_head q else q)

-- `queue_push_locked` replaces the ring; when it was full it also frees the oldest entry's block and
-- counts one drop. It changes nothing else, and returns `true`.
pub queue_push_locked_lem :
    (block : Ptr) (size : ℕ) (w : World)
    → queue_push_locked block size w ≡ (
      true,
      record w {
        queue = pushed (record { block = block; size = size }) w.queue;
        drop_count = if is_full w.queue then add_u32 w.drop_count 1 else w.drop_count;
        log = if is_full w.queue then free (w.queue.buf w.queue.head).block ∷ w.log else w.log;
      },
    )
unfolding queue_push_locked
queue_push_locked_lem block size w = ground arith

-- A valid ring takes a push as the bounded queue of its live entries does.
pub contents-pushed :
    (s : Slot) (q : Ring) → IsValid q → contents (pushed s q) ≡ fifo_push (contents q) s
unfolding fifo_push
contents-pushed s q v = ground (
  arith,
  length-contents q,
  contents-advance_head q v,
  contents-store_tail s q v,
  contents-store_tail s (advance_head q),
  advance_head-IsValid q v,
)

-- On a valid ring with room, `queue_push_locked` answers `true` and changes nothing but the ring, which stays
-- valid and has the new entry after the live ones. On a valid ring that is full, it also frees the block
-- of the oldest live entry, which leaves the queue, and counts one drop; the others stay in order.
pub queue_push_locked-appends :
    (block : Ptr) (size : ℕ) (w : World)
    → IsValid w.queue
    → let new : Slot = record { block = block; size = size } in
      (q : Ring) × IsValid q
      × (((length (contents w.queue) < queue_cap)
            × (contents q ≡ contents w.queue ++ new ∷ [])
            × (queue_push_locked block size w ≡ (true, record w { queue = q })))
          ⊎ ((s : Slot) × (rest : List Slot) × (contents w.queue ≡ s ∷ rest)
              × (length (contents w.queue) ≡ queue_cap)
              × (contents q ≡ rest ++ new ∷ [])
              × (queue_push_locked block size w ≡ (
                true,
                record w {
                  queue = q;
                  drop_count = add_u32 w.drop_count 1;
                  log = free s.block ∷ w.log;
                },
              ))))
unfolding queue_push_locked
queue_push_locked-appends block size w v =
    let new : Slot = record { block = block; size = size } in
    let n = length-contents w.queue in
    let valid = queue_push_locked-IsValid block size w v in
    let q = (queue_push_locked block size w).1.queue in
    elim (ℕ_discrete w.queue.len queue_cap) [
      | no room ↦ (
        q,
        valid,
        inl (
          (let most = v.len_in in omega (arith, n, most, room)),
          ground (arith, contents-store_tail new w.queue v),
          ground arith,
        ),
      )
      | yes full ↦ (
        q,
        valid,
        inr (
          w.queue.buf w.queue.head,
          contents (advance_head w.queue),
          contents-advance_head w.queue v (omega (arith, full)),
          n ∙ full,
          ground (
            arith,
            contents-store_tail new (advance_head w.queue),
            advance_head-IsValid w.queue v,
          ),
          ground arith,
        ),
      )
    ]

-- On a valid ring `queue_pop_locked` either finds no live entry, answers `None` and changes
-- nothing, or takes the oldest live entry off and leaves the others in a valid ring.
pub queue_pop_locked_lem :
    (w : World)
    → IsValid w.queue
    → ((contents w.queue ≡ []) × (queue_pop_locked w ≡ (none, w)))
      ⊎ ((s : Slot) × (q : Ring) × IsValid q
          × (contents w.queue ≡ s ∷ contents q)
          × (q.len ≡ w.queue.len - 1)
          × (queue_pop_locked w ≡ (some s, record w { queue = q })))
unfolding queue_pop_locked
queue_pop_locked_lem w v = elim (ℕ_discrete w.queue.len 0) [
  | yes e ↦ inl (contents-empty w.queue e, ground arith)
  | no p ↦ inr (
    w.queue.buf w.queue.head,
    advance_head w.queue,
    advance_head-IsValid w.queue v p,
    contents-advance_head w.queue v p,
    refl,
    ground arith,
  )
]
