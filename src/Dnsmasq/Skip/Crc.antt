-- ===== src/Dnsmasq/Skip/Crc.antt =====
-- The checksum of the questions in src/rfc1035.c of http1.0/src/dnsmasq/dnsmasq-2.45.
use mydns.Prelude.{ℕ, ◌≡◌, refl, ap, ◌∙◌, sym, List, [], ◌∷◌, map, true}
use mydns.Dnsmasq.Names.{to_lower, hostname_isequal}
use mydns.Dnsmasq.Names.Laws.{hostname_isequal_iff}
use mydns.Dnsmasq.Skip.{crc_byte, crc_name}

-- The bytes mixed in one after the other.
abbrev crc_bytes : ℕ → List ℕ → ℕ
crc_bytes crc [] = crc
crc_bytes crc (c ∷ cs) = crc_bytes (crc_byte crc c) cs

crc_name-map : (crc : ℕ) (name : List ℕ) → crc_name crc name ≡ crc_bytes crc (map to_lower name)
unfolding crc_name
crc_name-map crc [] = refl
crc_name-map crc (c ∷ cs) = crc_name-map (crc_byte crc (to_lower c)) cs

-- Names that `hostname_isequal` takes for the same have the same checksum, whatever was mixed in
-- before.
pub crc_name-hostname_isequal :
    (crc : ℕ) (a b : List ℕ) → hostname_isequal a b ≡ true → crc_name crc a ≡ crc_name crc b
crc_name-hostname_isequal crc a b e =
    crc_name-map crc a
    ∙ ap (crc_bytes crc) ((hostname_isequal_iff a b).0 e)
    ∙ sym (crc_name-map crc b)
