-- ===== src/Tests/Dns.antt =====
-- Names, queries and replies at concrete inputs, for http1.0/src/zdns.c.
mod Resolver
mod Overrun
use mydns.Prelude.{
  ℕ, ◌+◌, ◌≡◌, refl, List, [], ◌∷◌, ◌++◌, arith, length, All, Outcome, done, fault, no_fuel,
  replicate, c_text, Option, some, none, true, false, overlay, ◌≢◌, ◌<◌, ◌≤◌,
}
use mydns.Dns.Labels.{labels, labels_from, encode, join, IsPlainLabel}
use mydns.Dns.Format.{domain_format}
use mydns.Dns.Format.Encode.{domain_format-encode, domain_format-fault}
use mydns.Dns.ReadName.{read_name}
use mydns.Dns.ReadName.Wire.{WireName, Holds, label, pointer, root, rounds}
use mydns.Dns.ReadName.Laws.{Reads, read_name-WireName, read_name-root, read_name-self_pointer}
use mydns.Dns.RoundTrip.{read_name-domain_format}

abbrev short_name : List ℕ
short_name = b'a' ∷ b'.' ∷ b'b' ∷ []

domain_format-encode_example :
    domain_format short_name ≡ done (encode (labels short_name) ++ 0 ∷ [])
domain_format-encode_example = domain_format-encode short_name (omega arith)

-- The name `a`, and `b` in front of a pointer to it.
abbrev names : List ℕ
names = 1 ∷ b'a' ∷ 0 ∷ 1 ∷ b'b' ∷ 192 ∷ 0 ∷ []

abbrev block : List ℕ
block = replicate 256 0

abbrev name_b_a : WireName names 3 ((b'b' ∷ []) ∷ (b'a' ∷ []) ∷ []) 4
name_b_a =
    label (omega arith, omega arith, ((omega arith, omega arith), tt)) (refl, (refl, tt))
      (pointer 192 0 (omega arith) refl refl
        (label (omega arith, omega arith, ((omega arith, omega arith), tt)) (refl, (refl, tt))
          (root refl refl) refl)
        refl)
      refl

read_name-WireName_example : Reads ((b'b' ∷ []) ∷ (b'a' ∷ []) ∷ []) 4 (read_name block names 6 3)
unfolding encode
read_name-WireName_example =
    read_name-WireName name_b_a block 6 (omega arith) (omega arith) (omega arith)

abbrev pointer_to_itself : List ℕ
pointer_to_itself = 192 ∷ 0 ∷ []

read_name-self_pointer_example : read_name block pointer_to_itself 1000 0 ≡ no_fuel
read_name-self_pointer_example =
    read_name-self_pointer pointer_to_itself block 0 192 0 1000 refl refl (omega arith) refl
      (omega arith)

abbrev wire_name : List ℕ
wire_name = 1 ∷ b'a' ∷ 1 ∷ b'b' ∷ 0 ∷ []

plain_names : All IsPlainLabel (labels short_name)
unfolding labels_from
plain_names = (
  (omega arith, omega arith, ((omega arith, omega arith), tt)),
  ((omega arith, omega arith, ((omega arith, omega arith), tt)), tt),
)

read_name-domain_format_example :
    (name : List ℕ) × (read_name block wire_name 5 0 ≡ done (name, 5)) × (c_text name ≡ short_name)
unfolding labels_from encode
read_name-domain_format_example =
    read_name-domain_format short_name wire_name wire_name block 0 5 (omega arith) plain_names
      (domain_format-encode short_name (omega arith)) (refl, (refl, (refl, (refl, (refl, tt)))))
      (omega arith) (omega arith)
