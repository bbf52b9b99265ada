-- ===== src/Safety/Attempts/Accounts.antt =====
-- Where the blocks of a session's reports are at its end.
use wazabi_edr_driver.Base.{
  ℕ, suc, ◌+◌, ◌≡◌, ◌∙◌, refl, ap, arith, List, [], ◌∷◌, length, inl, inr, if◌then◌else◌, ◌==◌,
}
use wazabi_edr_driver.Wdk.{
  Ptr, null, Irp, Log, Action, Kernel, allocate, allocate_failed, free, DispatchRoutine,
  create_close, cleanup, device_control, invalid,
}
use wazabi_edr_driver.State.{Slot, World, loaded}
use wazabi_edr_driver.Ring.{queue_push_locked, queue_pop_locked}
use wazabi_edr_driver.Submit.{alloc_event, submit_event}
use wazabi_edr_driver.Dispatch.{
  dispatch_create_close, dispatch_invalid, dispatch_cleanup, dispatch_device_control,
}
use wazabi_edr_driver.Events.Event.{event_bytes, event_size}
use wazabi_edr_driver.Callbacks.Header.{write_block, submit}
use wazabi_edr_driver.Callbacks.Kept.{Kept, WellFormed}
use wazabi_edr_driver.System.{Request, serve, session, run, step}
use wazabi_edr_driver.Ring.Inv.{IsValid}
use wazabi_edr_driver.Safety.Waiting.{NoLostEvent}
use wazabi_edr_driver.Safety.Callbacks.{NoLostEvent-Kept}
use wazabi_edr_driver.Safety.Served.{handed, serve-NoLostEvent}
use wazabi_edr_driver.Callbacks.Preserve.Keys.{ReadableNames}
use wazabi_edr_driver.Entry.{driver_entry}
use wazabi_edr_driver.Entry.Kept.{EntryAction, printing, EntryKept, driver_entry-Kept}
use wazabi_edr_driver.Safety.Entry.{NoLostEvent-EntryKept, loaded-NoLostEvent}
use wazabi_edr_driver.Safety.Run.{AllGenuine, run-Kept}
use wazabi_edr_driver.Safety.Attempts.{attempts}
use wazabi_edr_driver.Safety.Attempts.Steps.{step-attempts}
use wazabi_edr_driver.Safety.Attempts.Reportable.{IsReportable}

-- The blocks that the pool gave, those that it refused, and those that it got back.
abbrev pub given : Log → ℕ
given [] = 0
given (allocate _ _ ∷ l) = 1 + given l
given (_ ∷ l) = given l

abbrev pub refused : Log → ℕ
refused [] = 0
refused (allocate_failed _ ∷ l) = 1 + refused l
refused (_ ∷ l) = refused l

abbrev pub returned : Log → ℕ
returned [] = 0
returned (free _ ∷ l) = 1 + returned l
returned (_ ∷ l) = returned l

-- Every block that was given is held, queued, or returned.
record Accounted (held : List Ptr) (w : World) : Type 0 where
  tried : attempts w.log ≡ given w.log + refused w.log
  placed : given w.log ≡ returned w.log + w.queue.len + length held
  waits : NoLostEvent w

module _ (k : Kernel) (held : List Ptr) (w : World) where
  alloc_event-tried :
      (size : ℕ)
      → attempts w.log ≡ given w.log + refused w.log
      → let w' = (alloc_event k size w).1 in attempts w'.log ≡ given w'.log + refused w'.log
  unfolding alloc_event
  alloc_event-tried size a = ground arith

  submit_event-tried :
      (b : Ptr) (size : ℕ)
      → attempts w.log ≡ given w.log + refused w.log
      → let w' = (submit_event k b size w).1 in attempts w'.log ≡ given w'.log + refused w'.log
  unfolding submit_event queue_push_locked
  submit_event-tried b size a = ground arith

  alloc_event-placed :
      (size : ℕ)
      → given w.log ≡ returned w.log + w.queue.len + length held
      → let (b, w') = alloc_event k size w in
        given w'.log
        ≡ returned w'.log + w'.queue.len + (if b == null then length held else length held + 1)
  unfolding alloc_event
  alloc_event-placed size a = ground arith

  submit_event-placed :
      (b : Ptr) (size : ℕ)
      → IsValid w.queue
      → given w.log ≡ returned w.log + w.queue.len + (length held + 1)
      → let w' = (submit_event k b size w).1 in
        given w'.log ≡ returned w'.log + w'.queue.len + length held
  unfolding submit_event queue_push_locked
  submit_event-placed b size v a = ground arith

  serve-tried :
      (routine : DispatchRoutine) (irp : Ptr)
      → attempts w.log ≡ given w.log + refused w.log
      → let w' = (serve k routine irp (handed irp w)).1 in
        attempts w'.log ≡ given w'.log + refused w'.log
  unfolding serve dispatch_device_control dispatch_cleanup dispatch_create_close dispatch_invalid
      queue_pop_locked
  serve-tried create_close irp a = ground arith
  serve-tried cleanup irp a = ground arith
  serve-tried device_control irp a = ground arith
  serve-tried invalid irp a = ground arith

  serve-placed :
      (routine : DispatchRoutine) (irp : Ptr)
      → given w.log ≡ returned w.log + w.queue.len + length held
      → let w' = (serve k routine irp (handed irp w)).1 in
        given w'.log ≡ returned w'.log + w'.queue.len + length held
  unfolding serve dispatch_device_control dispatch_cleanup dispatch_create_close dispatch_invalid
      queue_pop_locked
  serve-placed create_close irp a = ground arith
  serve-placed cleanup irp a = ground arith
  serve-placed device_control irp a = ground arith
  serve-placed invalid irp a = ground arith

Accounted-Kept : (k : Kernel) → Kept k WellFormed Accounted
unfolding write_block submit
Accounted-Kept k =
    let waits = NoLostEvent-Kept k in
    record {
      allocs = λ held size w a.
          let w' = (alloc_event k size w).1 in
          let tried = alloc_event-tried k held w size a.tried in
          let placed = alloc_event-placed k held w size a.placed in
          elim (waits.allocs held size w a.waits) [
            | inl (z, v) ↦ inl (z, record { tried = tried; placed = ground arith; waits = v })
            | inr (n, v) ↦ inr (n, record { tried = tried; placed = ground arith; waits = v })
          ];
      writes = λ held p bytes w a. record {
        tried = a.tried;
        placed = a.placed;
        waits = waits.writes held p bytes w a.waits;
      };
      takes = λ held w a. record {
        tried = a.tried;
        placed = a.placed;
        waits = waits.takes held w a.waits;
      };
      cuts = λ held w a. record {
        tried = a.tried;
        placed = a.placed;
        waits = waits.cuts held w a.waits;
      };
      names = λ held o w a. record {
        tried = a.tried;
        placed = a.placed;
        waits = waits.names held o w a.waits;
      };
      submits = λ held p e w wf a.
          let w1 = (write_block p (event_bytes e) w).1 in
          record {
            tried = submit_event-tried k held w1 p (event_size e) a.tried;
            placed =
                submit_event-placed k held w1 p (event_size e) a.waits.valid
                  (omega (arith, a.placed));
            waits = waits.submits held p e w wf a.waits;
          };
    }

-- DriverEntry asks the pool for nothing.
abbrev Unused : World → Type 0
Unused w =
    (attempts w.log ≡ 0)
    × (given w.log ≡ 0)
    × (refused w.log ≡ 0)
    × (returned w.log ≡ 0)
    × (w.queue.len ≡ 0)

Unused-acts :
    (a : Action) (w : World) → EntryAction a → Unused w → Unused (record w { log = a ∷ w.log })
Unused-acts a w (printing m) u = u
Unused-acts a w _ u = u

Unused-EntryKept : EntryKept Unused
Unused-EntryKept = record {
  acts = Unused-acts;
  sets = λ w w' same u.
      let log = ap (λ c. c.3) same in
      let len = ap (λ c. c.0.len) same in
      (
        ap attempts log ∙ u.0,
        ap given log ∙ u.1,
        ap refused log ∙ u.2,
        ap returned log ∙ u.3,
        len ∙ u.4,
      );
}

-- `n` of the notifications of a run are to be reported, each in the state in which it comes.
pub data Reportables (k : Kernel) : World → List Request → ℕ → Type 0 where
  none_left : (w : World) → Reportables k w [] 0
  reported :
      (w : World) (r : Request) (rs : List Request) (n : ℕ)
      → IsReportable k w r
      → Reportables k (step k w r) rs n
      → Reportables k w (r ∷ rs) (suc n)
  ignored :
      (w : World) (r : Request) (rs : List Request) (n : ℕ)
      → ¬ IsReportable k w r
      → Reportables k (step k w r) rs n
      → Reportables k w (r ∷ rs) n

run-attempts :
    (k : Kernel) (readable : ReadableNames k) (w : World) (rs : List Request)
    → (n : ℕ) × Reportables k w rs n × (attempts (run k w rs).log ≡ attempts w.log + n)
unfolding run
run-attempts k readable w [] = (0, none_left w, omega arith)
run-attempts k readable w (r ∷ rs) =
    let (n, counted, total) = run-attempts k readable (step k w r) rs in
    elim (step-attempts k readable w r) [
      | inl (is, one) ↦ (suc n, reported w r rs n is counted, omega (arith, one, total))
      | inr (no_, same) ↦ (n, ignored w r rs n no_ counted, omega (arith, same, total))
    ]

-- At the end of a session of requests whose IRPs are not null and of notifications whose strings can be
-- read, there were as many notifications to be reported, each in the state in which it came, as there
-- are refusals of the pool, blocks that were given back to it, and events that stand in the queue,
-- together. To be reported are all notifications of threads, processes and images; a user-mode handle to
-- another process than the current one whose original mask, in the view of the operation, has one of
-- seven rights; the creation of a key whose complete name starts with a watched prefix; and a change of a
-- key that is not null, for which the kernel's call does not fail and gives a name that, cut to the room
-- that there is, starts with a watched prefix. A letter's case does not count in a prefix.
pub session-accounts :
    (k : Kernel) (readable : ReadableNames k) (buf : ℕ → Slot) (pool : Ptr → List ℕ)
    (irps : Ptr → Irp) (rs : List Request)
    → AllGenuine rs
    → let w = session k buf pool irps rs in
      (n : ℕ) × Reportables k (driver_entry k (loaded buf pool irps)).1 rs n
      × (n ≡ refused w.log + returned w.log + w.queue.len)
unfolding session
session-accounts k readable buf pool irps rs genuine =
    let w0 = (driver_entry k (loaded buf pool irps)).1 in
    let unused : Unused w0 =
      driver_entry-Kept Unused-EntryKept k (loaded buf pool irps) (refl, refl, refl, refl, refl) in
    let waits = driver_entry-Kept NoLostEvent-EntryKept k _ (loaded-NoLostEvent buf pool irps) in
    let (a, g, f, r, l) = unused in
    let end =
      run-Kept {k = k} readable {P = Accounted} (Accounted-Kept k)
        (λ routine irp w real a. record {
          tried = serve-tried k [] w routine irp a.tried;
          placed = serve-placed k [] w routine irp a.placed;
          waits = serve-NoLostEvent k routine irp w a.waits;
        })
        rs w0 genuine
        (record {
          tried = omega (arith, a, g, f);
          placed = omega (arith, g, r, l);
          waits = waits;
        }) in
    let (n, counted, total) = run-attempts k readable w0 rs in
    (n, counted, omega (arith, end.tried, end.placed, total, a))
