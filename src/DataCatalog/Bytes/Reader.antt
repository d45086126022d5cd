-- ===== src/DataCatalog/Bytes/Reader.antt =====
-- A reader of sizes, and what it reads in a size's text.
use openscale.Base.{
  ℕ, zero, suc, ◌+◌, ◌-◌, ◌*◌, ◌/◌, ◌%◌, ◌^◌, ◌≤◌, ◌<◌, ◌==◌, Text, codes, text_eq, [], ◌∷◌, ◌++◌,
  Option, none, some, ltb, ltb→lt, if◌then◌else◌, ◌≡◌, ◌⊎◌, inl, inr, refl, ap, ◌∙◌, Bool-cases,
  arith, append_assoc,
}
use openscale.Base.Decimal.{show, scan-show, show-one, show-ten}
use openscale.DataCatalog.Bytes.{
  exponent, kib, decimals, ten_to, padded, fixed_text, shown_number, unit_text, format_bytes,
}
use openscale.DataCatalog.Bytes.Laws.{kib-pos, exponent-IsUnit, round_div-close}

-- A number with `places` decimals, in units of the last of them, and the power of 1024.
pub record Size : Type 0 where
  pub number : ℕ
  pub places : ℕ
  pub power : ℕ

abbrev sized : ℕ → ℕ → Option ℕ → Option Size
sized number places none = none
sized number places (some power) = some (record { number = number; places = places; power = power })

read_unit : Text → Option ℕ
read_unit s =
    if text_eq s (codes "B")
    then some 0
    else if text_eq s (codes "KB")
    then some 1
    else if text_eq s (codes "MB")
    then some 2
    else if text_eq s (codes "GB")
    then some 3
    else if text_eq s (codes "TB")
    then some 4
    else none

-- The digits after the point.
read_places : ℕ → ℕ → Text → Option Size
read_places places acc [] = none
read_places places acc (c ∷ cs) =
    let more = read_places (suc places) (acc * 10 + (c - 48)) cs in
    if c == b' ' then sized acc places (read_unit cs) else more

read_from : ℕ → Text → Option Size
read_from acc [] = none
read_from acc (c ∷ cs) =
    let more = read_from (acc * 10 + (c - 48)) cs in
    if c == b'.'
    then read_places 0 acc cs
    else if c == b' '
    then sized acc 0 (read_unit cs)
    else more

pub read_size : Text → Option Size
unfolding read_from
read_size s = read_from 0 s

read_from-digit :
    (acc d : ℕ) (rest : Text)
    → d < 10
    → read_from acc ((48 + d) ∷ rest) ≡ read_from (acc * 10 + d) rest
unfolding read_from
read_from-digit acc d rest h = ground arith

read_places-digit :
    (places acc d : ℕ) (rest : Text)
    → d < 10
    → read_places places acc ((48 + d) ∷ rest) ≡ read_places (suc places) (acc * 10 + d) rest
unfolding read_places
read_places-digit places acc d rest h = ground arith

read_from-show : (n : ℕ) (rest : Text) → read_from 0 (show n ++ rest) ≡ read_from n rest
read_from-show = scan-show read_from read_from-digit

read_unit-unit_text : (e : ℕ) → e ≤ 4 → read_unit (unit_text e) ≡ some e
unfolding read_unit unit_text
read_unit-unit_text zero h = refl
read_unit-unit_text (suc zero) h = refl
read_unit-unit_text (suc (suc zero)) h = refl
read_unit-unit_text (suc (suc (suc zero))) h = refl
read_unit-unit_text (suc (suc (suc (suc zero)))) h = refl
read_unit-unit_text (suc (suc (suc (suc (suc e))))) h = absurd (omega arith)

-- One and two decimals, padded.
show-one-padded : (r : ℕ) → r < 10 → padded 1 (show r) ≡ (48 + r) ∷ []
show-one-padded r h = rw (show-one r h) refl

show-two-padded : (r : ℕ) → r < 100 → padded 2 (show r) ≡ (48 + r / 10) ∷ (48 + r % 10) ∷ []
show-two-padded r h = elim (Bool-cases (ltb r 10)) [
  | inl small ↦
      let less : r < 10 = ltb→lt r 10 small in
      let first : 0 ≡ r / 10 = omega arith in
      let last : r ≡ r % 10 = omega arith in
      rw (show-one r less)
        (ap (λ k. (48 + k) ∷ (48 + r) ∷ []) first ∙ ap (λ k. (48 + r / 10) ∷ (48 + k) ∷ []) last)
  | inr big ↦ let more : 10 ≤ r = ground arith in rw (show-ten r more h) refl
]

-- A number of up to two decimals, printed and followed by a unit, is read.
read_size-fixed_text :
    (d n e : ℕ)
    → d ≤ 2
    → e ≤ 4
    → read_size (fixed_text d n ++ (codes " " ++ unit_text e))
      ≡ some (record { number = n; places = d; power = e })
unfolding read_size read_from read_places fixed_text
read_size-fixed_text zero n e h k =
    read_from-show n (codes " " ++ unit_text e) ∙ ap (sized n 0) (read_unit-unit_text e k)
read_size-fixed_text (suc zero) n e h k =
    let tail = codes " " ++ unit_text e in
    rw (show-one-padded (n % 10) (omega arith)) (
      ap (read_from 0) (append_assoc (show (n / 10)) _ tail)
      ∙ (read_from-show (n / 10) _
          ∙ (read_places-digit 0 (n / 10) (n % 10) tail (omega arith)
              ∙ (ap (sized (n / 10 * 10 + n % 10) 1) (read_unit-unit_text e k)
                  ∙ ap (λ m. some (record { number = m; places = 1; power = e })) (omega arith)))))
read_size-fixed_text (suc (suc zero)) n e h k =
    let tail = codes " " ++ unit_text e in
    let r = n % 100 in
    rw (show-two-padded r (omega arith)) (
      ap (read_from 0) (append_assoc (show (n / 100)) _ tail)
      ∙ (read_from-show (n / 100) _
          ∙ (read_places-digit 0 (n / 100) (r / 10) ((48 + r % 10) ∷ tail) (omega arith)
              ∙ (read_places-digit 1 (n / 100 * 10 + r / 10) (r % 10) tail (omega arith)
                  ∙ (ap (sized ((n / 100 * 10 + r / 10) * 10 + r % 10) 2) (read_unit-unit_text e k)
                      ∙ ap (λ m. some (record { number = m; places = 2; power = e }))
                          (omega arith))))))
read_size-fixed_text (suc (suc (suc d))) n e h k = absurd (omega arith)

kib-power : (e : ℕ) → e ≤ 5 → kib e ≡ 1024 ^ e
unfolding kib
kib-power zero h = refl
kib-power (suc zero) h = refl
kib-power (suc (suc zero)) h = refl
kib-power (suc (suc (suc zero))) h = refl
kib-power (suc (suc (suc (suc zero)))) h = refl
kib-power (suc (suc (suc (suc (suc zero))))) h = refl
kib-power (suc (suc (suc (suc (suc (suc e)))))) h = absurd (omega arith)

ten_to-power : (d : ℕ) → d ≤ 2 → ten_to d ≡ 10 ^ d
ten_to-power zero h = refl
ten_to-power (suc zero) h = refl
ten_to-power (suc (suc zero)) h = refl
ten_to-power (suc (suc (suc d))) h = absurd (omega arith)

-- None for bytes, two below ten of the unit, else one.
abbrev pub HasPlaces : ℕ → Size → Type 0
HasPlaces bytes s =
    ((s.power ≡ 0) × (s.places ≡ 0))
    ⊎ (((0 < s.power) × (s.places ≡ 2) × (bytes < 10 * 1024 ^ s.power))
        ⊎ ((0 < s.power) × (s.places ≡ 1) × (10 * 1024 ^ s.power ≤ bytes)))

-- The unit is the largest that the size reaches, and the number is off by half of its last decimal at
-- most.
pub record IsRounded (bytes : ℕ) (s : Size) : Type 0 where
  pub unit : s.power ≤ 4
  pub reached : 1024 ^ s.power ≤ bytes
  pub largest : (s.power ≡ 4) ⊎ (bytes < 1024 ^ (suc s.power))
  pub places : HasPlaces bytes s
  pub not_above : 2 * (s.number * 1024 ^ s.power) ≤ 2 * (bytes * 10 ^ s.places) + 1024 ^ s.power
  pub not_below : 2 * (bytes * 10 ^ s.places) < 2 * (s.number * 1024 ^ s.power) + 1024 ^ s.power

has_places :
    (e bytes n : ℕ)
    → e ≤ 4
    → HasPlaces bytes (record { number = n; places = decimals e bytes; power = e })
unfolding decimals
has_places zero bytes n h = inl (refl, refl)
has_places (suc e) bytes n h =
    let same = kib-power (suc e) (omega arith) in
    elim (Bool-cases (ltb bytes (10 * kib (suc e)))) [
      | inl small ↦
          let less : bytes < 10 * kib (suc e) = ltb→lt bytes (10 * kib (suc e)) small in
          rw small (inr (inl (omega arith, refl, omega (arith, same, less))))
      | inr big ↦
          let more : 10 * kib (suc e) ≤ bytes = ground arith in
          rw big (inr (inr (omega arith, refl, omega (arith, same, more))))
    ]

few_decimals : (e bytes : ℕ) → decimals e bytes ≤ 2
unfolding decimals
few_decimals zero bytes = omega arith
few_decimals (suc e) bytes = ground arith

shown_number-IsRounded :
    (bytes : ℕ)
    → 0 < bytes
    → let e = exponent 4 bytes in
      IsRounded bytes (record { number = shown_number bytes; places = decimals e bytes; power = e })
unfolding shown_number
shown_number-IsRounded bytes p =
    let u = exponent-IsUnit 4 bytes p in
    let e = exponent 4 bytes in
    let d = decimals e bytes in
    let close = round_div-close (bytes * ten_to d) (kib e) (kib-pos e) in
    let same = kib-power e (omega (arith, u.le)) in
    let next = kib-power (suc e) (omega (arith, u.le)) in
    let ten = ten_to-power d (few_decimals e bytes) in
    record {
      unit = u.le;
      reached = rw (← same) u.reached;
      largest = rw (← next) u.largest;
      places = has_places e bytes (shown_number bytes) u.le;
      not_above = rw (← same, ← ten) close.0;
      not_below = rw (← same, ← ten) close.1;
    }

-- The text of a size that is not 0 is read as a number and a unit, so that the unit is the largest of
-- B, KB, MB, GB and TB that the size reaches; the number has no decimals in B, two below ten of a
-- larger unit and else one, and it is within half a unit of its last decimal of the size.
pub read_size-format_bytes :
    (bytes : ℕ)
    → 0 < bytes
    → (size : Size) × (read_size (format_bytes bytes) ≡ some size) × IsRounded bytes size
unfolding format_bytes
read_size-format_bytes zero p = absurd (omega arith)
read_size-format_bytes (suc b) p =
    let e = exponent 4 (suc b) in
    let rounded = shown_number-IsRounded (suc b) p in
    (
      record { number = shown_number (suc b); places = decimals e (suc b); power = e },
      read_size-fixed_text (decimals e (suc b)) (shown_number (suc b)) e (few_decimals e (suc b))
          rounded.unit,
      rounded,
    )
