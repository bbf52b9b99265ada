-- ===== src/Callbacks/Registry/Prefix.antt =====
-- callbacks/registry.rs: which key paths are worth an event.
pub mod Folds
pub mod Matching
use Prim.Native.String.{String}
use Prim.Native.Char.{code}
use wazabi_edr_driver.Base.{
  ℕ, ◌-◌, ◌/◌, List, [], ◌∷◌, Option, none, some, Bool, true, false, not, ◌&&◌, if◌then◌else◌, ◌==◌,
  ltb, leb, length, take,
}
use wazabi_edr_driver.Wdk.{UnicodeString}

-- The bytes of an ASCII literal.
abbrev pub codes : String → List ℕ
codes String.[] = []
codes (String.◌∷◌ c s) = code c ∷ codes s

unfoldable pub critical_registry_prefixes : List (List ℕ)
critical_registry_prefixes =
    codes "\\REGISTRY\\MACHINE\\SYSTEM\\CurrentControlSet\\Services"
    ∷ codes "\\REGISTRY\\MACHINE\\SOFTWARE\\Microsoft\\Windows\\CurrentVersion\\Run"
    ∷ codes "\\REGISTRY\\MACHINE\\SOFTWARE\\Microsoft\\Windows\\CurrentVersion\\RunOnce"
    ∷ codes "\\REGISTRY\\MACHINE\\SOFTWARE\\Wow6432Node\\Microsoft\\Windows\\CurrentVersion\\Run"
    ∷ codes
        "\\REGISTRY\\MACHINE\\SOFTWARE\\Wow6432Node\\Microsoft\\Windows\\CurrentVersion\\RunOnce"
    ∷ codes
        "\\REGISTRY\\MACHINE\\SOFTWARE\\Microsoft\\Windows NT\\CurrentVersion\\Image File Execution Options"
    ∷ codes "\\REGISTRY\\MACHINE\\SOFTWARE\\Microsoft\\Windows NT\\CurrentVersion\\Winlogon"
    ∷ codes "\\REGISTRY\\MACHINE\\SYSTEM\\CurrentControlSet\\Control\\SafeBoot"
    ∷ codes "\\REGISTRY\\MACHINE\\SYSTEM\\CurrentControlSet\\Control\\Lsa"
    ∷ codes "\\REGISTRY\\MACHINE\\SOFTWARE\\Policies\\Microsoft\\Windows Defender"
    ∷ codes "\\REGISTRY\\MACHINE\\SOFTWARE\\Microsoft\\Windows Defender"
    ∷ codes "\\REGISTRY\\USER"
    ∷ []

-- `if b.is_ascii_lowercase() { b - 0x20 } else { b }`
unfoldable pub to_upper : ℕ → ℕ
to_upper b = if leb b'a' b && leb b b'z' then b - 0x20 else b

-- The `while` loop, from one index on: the key's units and the prefix's bytes that are left. The
-- guard before the loop rules the missing unit out.
unfoldable pub prefix_loop : List ℕ → List ℕ → Bool
unfolding to_upper
prefix_loop key [] = true
prefix_loop [] (p ∷ prefix) = false
prefix_loop (k ∷ key) (p ∷ prefix) =
    if ltb 0x7F k
    then false
    else if not (to_upper k == to_upper p)
    then false
    else prefix_loop key prefix

unfoldable pub key_has_ascii_prefix_ci : List ℕ → List ℕ → Bool
unfolding prefix_loop
key_has_ascii_prefix_ci key prefix =
    if ltb (length key) (length prefix) then false else prefix_loop key prefix

unfoldable pub matches_any : List ℕ → List (List ℕ) → Bool
unfolding key_has_ascii_prefix_ci
matches_any key [] = false
matches_any key (prefix ∷ prefixes) =
    if key_has_ascii_prefix_ci key prefix then true else matches_any key prefixes

unfoldable pub is_interesting_path : List ℕ → Bool
unfolding matches_any critical_registry_prefixes
is_interesting_path key = matches_any key critical_registry_prefixes

unfoldable pub is_interesting_unicode_string : Option UnicodeString → Bool
is_interesting_unicode_string none = false
is_interesting_unicode_string (some s) = elim s.buffer [
  | none ↦ false
  | some units ↦
      if s.length_bytes == 0 then false else is_interesting_path (take (s.length_bytes / 2) units)
]
