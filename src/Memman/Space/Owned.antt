-- ===== src/Memman/Space/Owned.antt =====
-- The frames that an address space has to itself.
use mathlib.Core.Path.{subst}
use eaburns_sos.Prelude.{suc, ℕ, ◌+◌, ◌*◌, ◌<◌, ◌≤◌, ◌≡◌, ◌≢◌, sym, ap, arith, List, some}
use eaburns_sos.Alloc.Client.{Holds}
use eaburns_sos.Memman.{frame_len, memman_use_frame}
use eaburns_sos.Memman.Space.{limit, AddrSpace, Machine, made, num_frames_of, alloc_addr_space}
use eaburns_sos.Memman.Space.Laws.{IsUp, with_entry}
use eaburns_sos.Memman.Space.Outcome.{space_of}
use eaburns_sos.Memman.Space.Balance.{count_of}
use eaburns_sos.Memman.Space.Table.{was_free, page, distinct_pages}
use eaburns_sos.Memman.Space.Result.{one_space}

-- The pages of an address space that was made are frames that were free, each its own.
abbrev pub HasPages : (n : ℕ) → Machine → AddrSpace → Type 0
HasPages n s a =
    ((j : ℕ)
      → j < n
      → (f : ℕ) × (a.frames j ≡ f * frame_len + 1)
        × (f < limit s.memory)
        × (count_of s.memory f ≡ 0))
    × ((j j' : ℕ) → j < j' → j' < n → a.frames j ≢ a.frames j')

pub space_pages :
    (base total fuel : ℕ) (us : List ℕ) (calls size : ℕ) (frames pts : ℕ → ℕ) (s s' : Machine)
    (a : AddrSpace)
    → Holds base total fuel us (suc (suc (suc (suc calls)))) s.heap
    → IsUp s.memory
    → size < 1023 * frame_len
    → alloc_addr_space fuel size frames pts s ≡ some (made a s')
    → HasPages (num_frames_of size) s a × (a.num_frames ≡ num_frames_of size)
unfolding memman_use_frame
space_pages base total fuel us calls size frames pts s s' a holds up small e =
    let (p, d, t, x1, d_in, t_in, d_free, t_free, done, a_is, s_is) =
      one_space base total fuel us calls size frames pts s s' a holds up small e in
    let n = num_frames_of size in
    let le : n ≤ 1023 = omega arith in
    let b =
      space_of size p.a p.b (d * frame_len) (with_entry 0 (d * frame_len) (t * frame_len) x1) in
    let all : HasPages n s b = (
      (λ j h.
          let (f, listed, word, in_map, free, now) =
            page n frames pts s d t x1 up le d_free t_free done j h in
          (f, listed, in_map, was_free n frames pts s d t x1 up le d_free t_free done f free)),
      distinct_pages n frames pts s d t x1 up le d_free t_free done,
    ) in
    (subst (HasPages n s) (sym a_is) all, ap (λ x. x.num_frames) a_is)
