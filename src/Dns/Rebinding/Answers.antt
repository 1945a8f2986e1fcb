-- ===== src/Dns/Rebinding/Answers.antt =====
-- What the scan of src/modules/dns/mod.rs finds in a well-formed response.
use shield_ghita.Prelude.{
  ℕ, zero, suc, ◌+◌, ◌*◌, ◌≤◌, ◌<◌, ◌≡◌, refl, ap, ◌∙◌, Bool, true, false, List, [], ◌∷◌, ◌++◌,
  arith, Bytes, ◌==◌, nat_eq, bytes_eq, pair_eq, ltb, leb, if◌then◌else◌, length, drop,
  length-append, length-drop, take-append_length, drop-append_length,
}
use shield_ghita.Outcome.{ret, slice, byte-drop, drop-lt, drop-add, slice-drop}
use shield_ghita.Dns.Wire.{is_pointer}
use shield_ghita.Dns.Wire.Names.{encode}
use shield_ghita.Dns.Rebinding.{is_private_rdata, skip_name, name_rounds, read_u16, scan_answers}

pub not_at_end :
    (resp : Bytes) (pos : ℕ) {b : ℕ} {s : Bytes}
    → drop pos resp ≡ b ∷ s
    → leb (length resp) pos ≡ false
not_at_end resp pos left = ground (arith, drop-lt resp pos left)

-- How a name ends on the wire: with the root label, or with a pointer of two bytes.
pub data NameEnd : Type 0 where
  root : NameEnd
  pointer : ℕ → ℕ → NameEnd

abbrev pub end_bytes : NameEnd → Bytes
end_bytes root = 0 ∷ []
end_bytes (pointer a b) = a ∷ b ∷ []

abbrev pub IsNameEnd : NameEnd → Type 0
IsNameEnd root = Unit
IsNameEnd (pointer a b) = ((a == 0) ≡ false) × (is_pointer a ≡ true)

-- Labels that are not empty, with lengths that are no pointers.
abbrev pub AreLabels : List Bytes → Type 0
AreLabels [] = Unit
AreLabels (label ∷ labels) =
    ((length label == 0) ≡ false) × (is_pointer (length label) ≡ false) × AreLabels labels

pub record WireName : Type 0 where
  pub labels : List Bytes
  pub name_end : NameEnd

abbrev pub encode_name : WireName → Bytes
encode_name n = encode n.labels ++ end_bytes n.name_end

abbrev pub IsWireName : WireName → Type 0
IsWireName n = AreLabels n.labels × IsNameEnd n.name_end

skip_name_end :
    (rounds : ℕ) (resp : Bytes) (pos : ℕ) (e : NameEnd) (rest : Bytes)
    → IsNameEnd e
    → drop pos resp ≡ end_bytes e ++ rest
    → skip_name (suc rounds) resp pos ≡ ret (pos + length (end_bytes e))
unfolding skip_name
skip_name_end rounds resp pos root rest ok left =
    rw (not_at_end resp pos left, byte-drop resp pos left) refl
skip_name_end rounds resp pos (pointer a b) rest (nonzero, is_one) left =
    rw (not_at_end resp pos left, byte-drop resp pos left, nonzero, is_one) refl

pub append_assoc3 :
    (label : Bytes) (xs ys zs : Bytes) → ((label ++ xs) ++ ys) ++ zs ≡ label ++ ((xs ++ ys) ++ zs)
append_assoc3 [] xs ys zs = refl
append_assoc3 (x ∷ label) xs ys zs = ap (λ t. x ∷ t) (append_assoc3 label xs ys zs)

skip_labels :
    (labels : List Bytes) (e : NameEnd) (rounds : ℕ) (resp : Bytes) (pos : ℕ) (rest : Bytes)
    → AreLabels labels
    → IsNameEnd e
    → drop pos resp ≡ (encode labels ++ end_bytes e) ++ rest
    → length labels < rounds
    → skip_name rounds resp pos ≡ ret (pos + length (encode labels ++ end_bytes e))
unfolding skip_name
skip_labels labels e zero resp pos rest are ok left enough = absurd (omega (arith, enough))
skip_labels [] e (suc rounds) resp pos rest are ok left enough =
    skip_name_end rounds resp pos e rest ok left
skip_labels (label ∷ labels) e (suc rounds) resp pos rest (nonzero, plain, are) ok left enough =
    let more = (encode labels ++ end_bytes e) ++ rest in
    let here : drop pos resp ≡ length label ∷ (label ++ more) =
      left ∙ ap (λ t. length label ∷ t) (append_assoc3 label (encode labels) (end_bytes e) rest) in
    let next : drop (pos + 1 + length label) resp ≡ more =
      drop-add resp (pos + 1) (length label) (drop-add resp pos 1 here)
      ∙ drop-append_length label more in
    rw (not_at_end resp pos here, byte-drop resp pos here, nonzero, plain)
      (skip_labels labels e rounds resp (pos + 1 + length label) rest are ok next
          (omega (arith, enough))
        ∙ ap ret (
            omega (
              arith,
              length-append label (encode labels),
              length-append (label ++ encode labels) (end_bytes e),
              length-append (encode labels) (end_bytes e),
            )))

pub length-encode-ge : (labels : List Bytes) → length labels ≤ length (encode labels)
length-encode-ge [] = omega arith
length-encode-ge (label ∷ labels) =
    omega (arith, length-encode-ge labels, length-append label (encode labels))

pub skip_name-encode_name :
    (n : WireName) (resp : Bytes) (pos : ℕ) (rest : Bytes)
    → IsWireName n
    → drop pos resp ≡ encode_name n ++ rest
    → skip_name (name_rounds resp) resp pos ≡ ret (pos + length (encode_name n))
skip_name-encode_name n resp pos rest (are, ok) left =
    skip_labels n.labels n.name_end (name_rounds resp) resp pos rest are ok left (
      omega (
        arith,
        length-encode-ge n.labels,
        length-append (encode n.labels) (end_bytes n.name_end),
        length-append (encode_name n) rest,
        ap length left,
        length-drop pos resp,
      ))

-- An answer on the wire: its name, type, class, time to live, and data behind its length.
pub record WireAnswer : Type 0 where
  pub name : WireName
  pub type_high : ℕ
  pub type_low : ℕ
  pub class_high : ℕ
  pub class_low : ℕ
  pub ttl0 : ℕ
  pub ttl1 : ℕ
  pub ttl2 : ℕ
  pub ttl3 : ℕ
  pub length_high : ℕ
  pub length_low : ℕ
  pub rdata : Bytes

abbrev pub fixed_part : WireAnswer → Bytes → Bytes
fixed_part a rest =
    a.type_high ∷ a.type_low ∷ a.class_high ∷ a.class_low ∷ a.ttl0 ∷ a.ttl1 ∷ a.ttl2 ∷ a.ttl3
    ∷ a.length_high ∷ a.length_low ∷ rest

abbrev pub encode_answer : WireAnswer → Bytes
encode_answer a = encode_name a.name ++ fixed_part a a.rdata

abbrev pub IsWireAnswer : WireAnswer → Type 0
IsWireAnswer a = IsWireName a.name × (a.length_high * 256 + a.length_low ≡ length a.rdata)

abbrev pub is_private_answer : WireAnswer → Bool
is_private_answer a = is_private_rdata (a.type_high * 256 + a.type_low) a.rdata

pub append_assoc2 : (xs ys zs : Bytes) → (xs ++ ys) ++ zs ≡ xs ++ (ys ++ zs)
append_assoc2 [] ys zs = refl
append_assoc2 (x ∷ xs) ys zs = ap (λ t. x ∷ t) (append_assoc2 xs ys zs)

pub read_u16-drop :
    (resp : Bytes) (pos : ℕ) {a b : ℕ} {s : Bytes}
    → drop pos resp ≡ a ∷ b ∷ s
    → read_u16 resp pos ≡ ret (a * 256 + b)
unfolding read_u16
read_u16-drop resp pos left =
    rw (byte-drop resp pos left, byte-drop resp (pos + 1) (drop-add resp pos 1 left)) refl

-- One round of the scan, at an answer.
pub scan_answers-encode_answer :
    (count : ℕ) (a : WireAnswer) (resp : Bytes) (pos : ℕ) (rest : Bytes)
    → IsWireAnswer a
    → drop pos resp ≡ encode_answer a ++ rest
    → scan_answers (suc count) resp pos ≡ (
        if is_private_answer a
        then ret true
        else scan_answers count resp (pos + length (encode_answer a)))
unfolding scan_answers
scan_answers-encode_answer count a resp pos rest (named, sized) left =
    let p = pos + length (encode_name a.name) in
    let size : length resp ≡ p + 10 + length (a.rdata ++ rest) = omega (
      arith,
      ap length left1,
      length-drop pos resp,
      length-append (encode_name a.name) (fixed_part a (a.rdata ++ rest)),
    ) in
    let more = length-append a.rdata rest in
    let inside : leb (length resp) pos ≡ false = ground (arith, size) in
    let fixed : ltb (length resp) (p + 10) ≡ false = ground (arith, size) in
    let whole : ltb (length resp) (p + 10 + length a.rdata) ≡ false = ground (arith, size, more) in
    let left2 : drop p resp ≡ fixed_part a (a.rdata ++ rest) =
      drop-add resp pos (length (encode_name a.name)) left1
      ∙ drop-append_length (encode_name a.name) (fixed_part a (a.rdata ++ rest)) in
    let data_slice : slice resp (p + 10) (p + 10 + length a.rdata) ≡ ret a.rdata =
      slice-drop resp (p + 10) (length a.rdata) (drop-add resp p 10 left2) (omega (arith, size))
        (omega (arith, more))
      ∙ ap ret (take-append_length a.rdata rest) in
    rw
      (
        inside,
        skip_name-encode_name a.name resp pos (fixed_part a (a.rdata ++ rest)) named left1,
        fixed,
        read_u16-drop resp p left2,
        read_u16-drop resp (p + 8) (drop-add resp p 8 left2),
        sized,
        whole,
        data_slice,
      )
      (ap (λ q. if is_private_answer a then ret true else scan_answers count resp q)
        (omega (arith, length-append (encode_name a.name) (fixed_part a a.rdata))))
  where
    left1 : drop pos resp ≡ encode_name a.name ++ fixed_part a (a.rdata ++ rest)
    left1 = left ∙ append_assoc2 (encode_name a.name) (fixed_part a a.rdata) rest
