-- ===== src/Events/Decode/Header.antt =====
-- Reading an event header.
use wazabi_edr_driver.Base.{
  ℕ, zero, suc, ◌<◌, ◌^◌, ◌≡◌, ◌++◌, sym, append-nil, ap, ◌∙◌, List, [], ◌∷◌,
}
use wazabi_edr_driver.Events.{EventHeader}
use wazabi_edr_driver.Events.Codec.{
  of_le_bytes, of_le_bytes-le_bytes, of_units, unpack, unpack-pack, unpack-pack-append, widths,
  pack,
}
use wazabi_edr_driver.Events.Layout.{header_bytes, header_fields}
use wazabi_edr_driver.Events.Sizes.{header_widths, widths-header}

-- The field at a position.
abbrev pub field : ℕ → List (List ℕ) → List ℕ
field i [] = []
field zero (f ∷ fs) = f
field (suc i) (f ∷ fs) = field i fs

abbrev pub number : ℕ → List (List ℕ) → ℕ
number i fs = of_le_bytes (field i fs)

abbrev pub array : ℕ → List (List ℕ) → List ℕ
array i fs = of_units (field i fs)

abbrev pub header_of : List (List ℕ) → EventHeader
header_of fs = record {
  version = number 0 fs;
  type_ = number 1 fs;
  timestamp = number 2 fs;
  size = number 3 fs;
  drop_count = number 4 fs;
  trunc_count = number 5 fs;
}

pub decode_header : List ℕ → EventHeader
decode_header bytes = header_of (unpack header_widths bytes)

-- Every number fits its field.
pub record HeaderFits (h : EventHeader) : Type 0 where
  pub version : h.version < 256 ^ 2
  pub type_ : h.type_ < 256 ^ 2
  pub timestamp : h.timestamp < 256 ^ 8
  pub size : h.size < 256 ^ 4
  pub drop_count : h.drop_count < 256 ^ 4
  pub trunc_count : h.trunc_count < 256 ^ 4

header_of-fields : (h : EventHeader) → HeaderFits h → header_of (header_fields h) ≡ h
header_of-fields h f = λ i. record {
  version = of_le_bytes-le_bytes 2 h.version f.version i;
  type_ = of_le_bytes-le_bytes 2 h.type_ f.type_ i;
  timestamp = of_le_bytes-le_bytes 8 h.timestamp f.timestamp i;
  size = of_le_bytes-le_bytes 4 h.size f.size i;
  drop_count = of_le_bytes-le_bytes 4 h.drop_count f.drop_count i;
  trunc_count = of_le_bytes-le_bytes 4 h.trunc_count f.trunc_count i;
}

-- Cutting at the right widths gives the fields back.
pub unpack-at : (fs : List (List ℕ)) {ns : List ℕ} → widths fs ≡ ns → unpack ns (pack fs) ≡ fs
unpack-at fs e = rw (← e) (unpack-pack fs)

unpack_front :
    (h : EventHeader) (rest : List ℕ)
    → unpack header_widths (pack (header_fields h) ++ rest) ≡ header_fields h
unpack_front h rest = rw (← widths-header h) (unpack-pack-append (header_fields h) rest)

-- The header is read off the front of the bytes, whatever follows it.
pub decode_header-header_bytes :
    (h : EventHeader) (rest : List ℕ) → HeaderFits h → decode_header (header_bytes h ++ rest) ≡ h
unfolding decode_header header_bytes
decode_header-header_bytes h rest f = ap header_of (unpack_front h rest) ∙ header_of-fields h f

-- The same where the header fills the bytes.
pub header_back : (h : EventHeader) → HeaderFits h → decode_header (header_bytes h) ≡ h
header_back h f =
    ap decode_header (sym (append-nil (header_bytes h))) ∙ decode_header-header_bytes h [] f
