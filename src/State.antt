-- ===== src/State.antt =====
-- state.rs: the driver's globals, with the memory that it reads and writes through pointers, and the
-- monad in which the other modules write the driver's functions.
use wazabi_edr_driver.Base.{
  ℕ, ◌+◌, ◌%◌, ◌^◌, Bool, Option, none, List, [], ◌∷◌, if◌then◌else◌, ◌==◌, false,
}
use wazabi_edr_driver.Wdk.{Ptr, null, Irp, DispatchRoutine, Action, Log}

-- `Slot`: an owned pool block and its size.
pub record Slot : Type 0 where
  pub block : Ptr
  pub size : ℕ

abbrev pub queue_cap : ℕ
queue_cap = 4096

-- `QUEUE_BUF`, `QUEUE_HEAD`, `QUEUE_TAIL`, `QUEUE_LEN`. The storage starts uninitialised, so it is
-- any function of the index.
pub record Ring : Type 0 where
  pub buf : ℕ → Slot
  pub head : ℕ
  pub tail : ℕ
  pub len : ℕ

pub record World : Type 0 where
  -- of the driver object: `MajorFunction`, `none` for a null slot, and whether `DriverUnload` is set
  pub major_function : ℕ → Option DispatchRoutine
  pub unload_wired : Bool
  pub queue : Ring
  pub drop_count : ℕ
  pub trunc_count : ℕ
  -- `OOM_COUNT` of submit.rs
  pub oom_count : ℕ
  pub pending_irp : Ptr
  pub control_device : Ptr
  pub process_callback_registered : Bool
  pub image_callback_registered : Bool
  pub registry_callback_registered : Bool
  pub registry_callback_cookie : ℕ
  pub thread_callback_registered : Bool
  pub object_callback_handle : Ptr
  -- the bytes of a pool block
  pub pool : Ptr → List ℕ
  pub irps : Ptr → Irp
  pub log : Log

-- One cell of a memory is replaced.
abbrev pub update {ℓ} : {A : Type ℓ} → (ℕ → A) → ℕ → A → ℕ → A
update f i a j = if i == j then a else f j

-- `fetch_add` on an AtomicU32, and `+ 1` on a usize, wrap.
abbrev pub add_u32 : ℕ → ℕ → ℕ
add_u32 a b = (a + b) % 2 ^ 32

abbrev pub add_usize : ℕ → ℕ → ℕ
add_usize a b = (a + b) % 2 ^ 64

-- The statics' initial values, at any memory.
abbrev pub loaded : (ℕ → Slot) → (Ptr → List ℕ) → (Ptr → Irp) → World
loaded buf pool irps = record {
  major_function = λ i. none;
  unload_wired = false;
  queue = record { buf = buf; head = 0; tail = 0; len = 0 };
  drop_count = 0;
  trunc_count = 0;
  oom_count = 0;
  pending_irp = null;
  control_device = null;
  process_callback_registered = false;
  image_callback_registered = false;
  registry_callback_registered = false;
  registry_callback_cookie = 0;
  thread_callback_registered = false;
  object_callback_handle = null;
  pool = pool;
  irps = irps;
  log = [];
}

abbrev pub M : Type 0 → Type 0
M A = World → A × World

abbrev pub pure : {A : Type 0} → A → M A
pure a w = (a, w)

infixl 5 ◌>>=◌ ◌>>◌
abbrev pub ◌>>=◌ : {A B : Type 0} → M A → (A → M B) → M B
◌>>=◌ m f w = let r = m w in f r.0 r.1

abbrev pub ◌>>◌ : {B : Type 0} → M (Unit {0}) → M B → M B
m >> k = m >>= λ _. k

abbrev pub gets : {A : Type 0} → (World → A) → M A
gets f w = (f w, w)

abbrev pub modify : (World → World) → M (Unit {0})
modify f w = (tt, f w)

-- A kernel call, or an access, is recorded.
unfoldable pub act : Action → M (Unit {0})
act a w = (tt, record w { log = a ∷ w.log })

abbrev pub when : Bool → M (Unit {0}) → M (Unit {0})
when b m = if b then m else pure tt
