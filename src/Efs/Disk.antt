-- ===== src/Efs/Disk.antt =====
-- A device in memory, a byte at each offset: the interface that the file system takes can be filled.
use eaburns_sos.Prelude.{
  ℕ, zero, suc, ◌+◌, ◌≤◌, ◌<◌, ◌≡◌, ◌⊎◌, ◌∙◌, refl, sym, ap, arith, List, [], ◌∷◌, Option, none,
  some, length, ◌==◌, if◌then◌else◌, true, false,
}
use eaburns_sos.Efs.Device.{Device}

abbrev pub Bytes : Type 0
Bytes = ℕ → ℕ

abbrev pub slice : Bytes → (o n : ℕ) → List ℕ
slice d o zero = []
slice d o (suc n) = d o ∷ slice d (o + 1) n

abbrev pub overwrite : Bytes → ℕ → List ℕ → Bytes
overwrite d o [] = d
overwrite d o (x ∷ xs) = λ y. if y == o then x else overwrite d (o + 1) xs y

length-slice : (d : Bytes) (o n : ℕ) → length (slice d o n) ≡ n
length-slice d o zero = refl
length-slice d o (suc n) = ap suc (length-slice d (o + 1) n)

slice-agree :
    (d d' : Bytes) (o n : ℕ)
    → ((x : ℕ) → o ≤ x → x < o + n → d x ≡ d' x)
    → slice d o n ≡ slice d' o n
slice-agree d d' o zero h = refl
slice-agree d d' o (suc n) h =
    ap (λ x. x ∷ slice d (o + 1) n) (h o (omega arith) (omega arith))
    ∙ ap (λ l. d' o ∷ l) (slice-agree d d' (o + 1) n (λ x p q. h x (omega arith) (omega arith)))

overwrite-outside :
    (d : Bytes) (o : ℕ) (b : List ℕ) (x : ℕ)
    → (x < o) ⊎ (o + length b ≤ x)
    → overwrite d o b x ≡ d x
overwrite-outside d o [] x h = refl
overwrite-outside d o (v ∷ b) x h =
    let ne : (x == o) ≡ false = ground (arith, h) in
    rw ne (overwrite-outside d (o + 1) b x (omega (arith, h)))

slice-overwrite : (d : Bytes) (o : ℕ) (b : List ℕ) → slice (overwrite d o b) o (length b) ≡ b
slice-overwrite d o [] = refl
slice-overwrite d o (v ∷ b) =
    let here : (o == o) ≡ true = ground arith in
    ap (λ x. x ∷ slice (overwrite d o (v ∷ b)) (o + 1) (length b)) (rw here refl)
    ∙ ap (λ l. v ∷ l)
        (slice-agree (overwrite d o (v ∷ b)) (overwrite d (o + 1) b) (o + 1) (length b)
            (λ x p q. let ne : (x == o) ≡ false = ground arith in rw ne refl)
          ∙ slice-overwrite d (o + 1) b)

-- the value of an option, or another one
abbrev value_or {ℓ} : {A : Type ℓ} → A → Option A → A
value_or a none = a
value_or a (some b) = b

pub read_length :
    (d : Bytes) (o : ℕ) (b : List ℕ)
    → ◌≡◌ {A = Option (List ℕ)} (some (slice d o 1024)) (some b)
    → length b ≡ 1024
read_length d o b e =
    let same : slice d o 1024 ≡ b = ap (value_or []) e in
    ap length (sym same) ∙ length-slice d o 1024

pub read_back :
    (d d' : Bytes) (o : ℕ) (b : List ℕ)
    → length b ≡ 1024
    → ◌≡◌ {A = Option Bytes} (some (overwrite d o b)) (some d')
    → ◌≡◌ {A = Option (List ℕ)} (some (slice d' o 1024)) (some b)
read_back d d' o b len e =
    let same : overwrite d o b ≡ d' = ap (value_or d) e in
    ap (λ (m : Bytes). some (slice m o 1024)) (sym same)
    ∙ (ap (λ n. some (slice (overwrite d o b) o n)) (sym len) ∙ ap some (slice-overwrite d o b))

pub read_apart :
    (d d' : Bytes) (o p : ℕ) (b : List ℕ)
    → length b ≡ 1024
    → ◌≡◌ {A = Option Bytes} (some (overwrite d o b)) (some d')
    → (p + 1024 ≤ o) ⊎ (o + 1024 ≤ p)
    → ◌≡◌ {A = Option (List ℕ)} (some (slice d' p 1024)) (some (slice d p 1024))
read_apart d d' o p b len e apart =
    let same : overwrite d o b ≡ d' = ap (value_or d) e in
    ap (λ (m : Bytes). some (slice m p 1024)) (sym same)
    ∙ ap some (
        slice-agree (overwrite d o b) d p 1024
          (λ x lo hi. overwrite-outside d o b x (omega (arith, apart, len))))

abbrev pub memory_device : Device
memory_device = record {
  Image = Bytes;
  pread = λ d o. some (slice d o 1024);
  pwrite = λ d o b. some (overwrite d o b);
  length-pread = read_length;
  pread-pwrite_self = read_back;
  pread-pwrite_apart = read_apart;
}
