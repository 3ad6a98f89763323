-- ===== src/Alloc/Steps.antt =====
-- What each small step of `alloc` and of `free` leaves of a region.
use eaburns_sos.Prelude.{ℕ, ◌+◌, ◌-◌, ◌≤◌, ◌<◌, ◌≡◌, ◌&&◌, not, arith, ◌==◌, if◌then◌else◌}
use eaburns_sos.Prelude.Chain.{null}
use eaburns_sos.Alloc.{
  unlink_used, push_free, Region, set_slot_next, set_slot_len, unlink_free, split, push_used,
}
use eaburns_sos.Alloc.Inv.{nexts, lens}

-- What a step leaves of a region: the heads, the `next` pointers and the lengths.
abbrev pub Is : Region → (free used : ℕ) → (n l : ℕ → ℕ) → Type 0
Is r free used n l =
    (r.free_list ≡ free)
    × (r.used_list ≡ used)
    × ((a : ℕ) → nexts r a ≡ n a)
    × ((a : ℕ) → lens r a ≡ l a)

-- the `next` pointers and the head after `p` is unlinked, where `j` stands before it
abbrev pub skip : (n : ℕ → ℕ) → (j p a : ℕ) → ℕ
skip n j p a = if not (j == null) && (a == j) then n p else n a

abbrev pub skip_head : (n : ℕ → ℕ) → (j h : ℕ) → ℕ
skip_head n j h = if j == null then n h else h

pub unlink_free-Is :
    (r : Region) (j p : ℕ)
    → Is
        (unlink_free r j p)
        (skip_head (nexts r) j r.free_list)
        r.used_list
        (skip (nexts r) j p)
        (lens r)
unfolding unlink_free set_slot_next
unlink_free-Is r j p = ground arith

pub split-Is :
    (r : Region) (p s : ℕ)
    → s + 8 ≤ lens r p
    → p + 8 + lens r p < 4294967296
    → Is
        (split r p s)
        (p + 8 + s)
        r.used_list
        (λ a. if a == p + 8 + s then r.free_list else nexts r a)
        (λ a. if a == p then s else if a == p + 8 + s then lens r p - (s + 8) else lens r a)
unfolding split set_slot_next set_slot_len
split-Is r p s room low = ground arith

pub push_used-Is :
    (r : Region) (p : ℕ)
    → Is (push_used r p) r.free_list p (λ a. if a == p then r.used_list else nexts r a) (lens r)
unfolding push_used set_slot_next
push_used-Is r p = ground arith

pub unlink_used-Is :
    (r : Region) (j p : ℕ)
    → Is
        (unlink_used r j p)
        r.free_list
        (skip_head (nexts r) j r.used_list)
        (skip (nexts r) j p)
        (lens r)
unfolding unlink_used set_slot_next
unlink_used-Is r j p = ground arith

pub push_free-Is :
    (r : Region) (p : ℕ)
    → Is (push_free r p) p r.used_list (λ a. if a == p then r.free_list else nexts r a) (lens r)
unfolding push_free set_slot_next
push_free-Is r p = ground arith

pub set_slot_len-Is :
    (r : Region) (p n : ℕ)
    → Is
        (set_slot_len r p n)
        r.free_list
        r.used_list
        (nexts r)
        (λ a. if a == p then n else lens r a)
unfolding set_slot_len
set_slot_len-Is r p n = ground arith
