-- ===== src/Screen/Memory.antt =====
-- Memory as bytes at addresses, with the `memcpy` and `memset` of kernel/lib/memutil.c.
use eaburns_sos.Prelude.{
  ℕ, zero, suc, ◌+◌, ◌-◌, ◌<◌, ◌≤◌, ◌≡◌, ◌≢◌, ◌⊎◌, inl, inr, ◌∙◌, ltb, leb, ◌&&◌, Nat-cases,
  Bool-cases, ap, refl, arith, ◌==◌, if◌then◌else◌, u8,
}

abbrev pub Memory : Type 0
Memory = ℕ → ℕ

unfoldable pub write_8 : Memory → (addr val : ℕ) → Memory
write_8 m a v = λ x. if x == a then u8 v else m x

-- Bytes are copied one at a time, the first one first; `i` of them have been copied.
unfoldable pub copy_from : (dest src : ℕ) → (bytes i : ℕ) → Memory → Memory
copy_from dest src zero i m = m
copy_from dest src (suc k) i m = copy_from dest src k (i + 1) (write_8 m (dest + i) (m (src + i)))

abbrev pub memcpy : Memory → (dest src bytes : ℕ) → Memory
memcpy m dest src bytes = copy_from dest src bytes 0 m

unfoldable pub set_from : (dest val : ℕ) → (bytes i : ℕ) → Memory → Memory
set_from dest val zero i m = m
set_from dest val (suc k) i m = set_from dest val k (i + 1) (write_8 m (dest + i) val)

abbrev pub memset : Memory → (dest val bytes : ℕ) → Memory
memset m dest val bytes = set_from dest val bytes 0 m

-- all values are bytes
abbrev pub IsBytes : Memory → Type 0
IsBytes m = (x : ℕ) → m x < 256

pub write_8_self : (m : Memory) (a v : ℕ) → v < 256 → write_8 m a v a ≡ v
unfolding write_8
write_8_self m a v h = ground arith

pub write_8_ne : (m : Memory) (a v x : ℕ) → x ≢ a → write_8 m a v x ≡ m x
unfolding write_8
write_8_ne m a v x h = ground arith

pub write_8-IsBytes : (m : Memory) (a v : ℕ) → IsBytes m → IsBytes (write_8 m a v)
unfolding write_8
write_8-IsBytes m a v h x = ground (arith, h x)

-- Copying to lower addresses, or away from what it reads, `memcpy` moves: what it reads has not been
-- overwritten.
module _ (dest src n : ℕ) (h : (dest < src) ⊎ (src + n ≤ dest)) where
  copy_outside :
      (k i : ℕ) (m : Memory) (x : ℕ)
      → (x < dest + i) ⊎ (dest + i + k ≤ x)
      → copy_from dest src k i m x ≡ m x
  unfolding copy_from
  copy_outside zero i m x p = refl
  copy_outside (suc k) i m x p =
      copy_outside k (i + 1) (write_8 m (dest + i) (m (src + i))) x (omega (arith, p))
      ∙ write_8_ne m (dest + i) (m (src + i)) x (omega (arith, p))

  copy_inside :
      (k i : ℕ) (m : Memory) (x : ℕ)
      → IsBytes m
      → i + k ≤ n
      → dest + i ≤ x
      → x < dest + i + k
      → copy_from dest src k i m x ≡ m (src + (x - dest))
  unfolding copy_from
  copy_inside zero i m x b room p q = absurd (omega arith)
  copy_inside (suc k) i m x b room p q =
      let v : ℕ = m (src + i) in
      let m' : Memory = write_8 m (dest + i) v in
      elim (Nat-cases x (dest + i)) [
        | inl e ↦
            let here : src + i ≡ src + (x - dest) = omega (arith, e) in
            copy_outside k (i + 1) m' x (omega (arith, e))
            ∙ (rw e (write_8_self m (dest + i) v (b (src + i))) ∙ ap m here)
        | inr ne ↦
            copy_inside k (i + 1) m' x (write_8-IsBytes m (dest + i) v b) (omega arith)
              (omega (arith, ne)) (omega arith)
            ∙ write_8_ne m (dest + i) v (src + (x - dest)) (omega (arith, h))
      ]

-- `memcpy` to lower addresses, or to a range apart, in one statement.
pub memcpy_lem :
    (m : Memory) (dest src bytes x : ℕ)
    → (dest < src) ⊎ (src + bytes ≤ dest)
    → IsBytes m
    → memcpy m dest src bytes x
      ≡ (if leb dest x && ltb x (dest + bytes) then m (src + (x - dest)) else m x)
memcpy_lem m dest src bytes x h b = elim (Bool-cases (leb dest x && ltb x (dest + bytes))) [
  | inl t ↦
      rw t (copy_inside dest src bytes h bytes 0 m x b (omega arith) (ground arith) (ground arith))
  | inr f ↦ rw f (copy_outside dest src bytes h bytes 0 m x (ground arith))
]

-- `memset` writes its value over the range and nothing else.
pub memset_lem :
    (dest val bytes i : ℕ) (m : Memory) (x : ℕ)
    → set_from dest val bytes i m x
      ≡ (if leb (dest + i) x && ltb x (dest + i + bytes) then u8 val else m x)
unfolding set_from write_8
memset_lem dest val zero i m x = ground arith
memset_lem dest val (suc k) i m x =
    memset_lem dest val k (i + 1) (write_8 m (dest + i) val) x ∙ ground arith

pub copy_from-IsBytes :
    (dest src k i : ℕ) (m : Memory) → IsBytes m → IsBytes (copy_from dest src k i m)
unfolding copy_from
copy_from-IsBytes dest src zero i m b = b
copy_from-IsBytes dest src (suc k) i m b =
    copy_from-IsBytes dest src k (i + 1) _ (write_8-IsBytes m (dest + i) (m (src + i)) b)
