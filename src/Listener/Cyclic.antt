-- ===== src/Listener/Cyclic.antt =====
-- Distances around the slots of a part of src/listener.cpp.
use sipp.Base.{
  ℕ, ◌+◌, ◌-◌, ◌%◌, ◌≤◌, ◌<◌, ◌≡◌, leb, ◌==◌, if◌then◌else◌, arith, Bool-cases, inl, inr,
}

-- How far `i` is from `h`, going up and round.
abbrev pub dist : ℕ → ℕ → ℕ → ℕ
dist size h i = if leb h i then i - h else i + size - h

abbrev pub next_slot : ℕ → ℕ → ℕ
next_slot size i = if i + 1 == size then 0 else i + 1

pub next_slot_lem : (size i : ℕ) → i < size → (i + 1) % size ≡ next_slot size i
next_slot_lem size i h = grind arith

mod_wrap : (x n : ℕ) → x < n → (x + n) % n ≡ x
mod_wrap x n h = grind arith

mod_small : (x n : ℕ) → x < n → x % n ≡ x
mod_small x n h = grind arith

pub dist_lem : (size h i : ℕ) → h < size → i < size → (i + size - h) % size ≡ dist size h i
dist_lem size h i p q = elim (Bool-cases (leb h i)) [
  | inl e ↦
      let a : i + size - h ≡ i - h + size = ground arith in
      rw (e, a) (mod_wrap (i - h) size (omega arith))
  | inr e ↦ rw e (mod_small (i + size - h) size (ground arith))
]

pub dist-next_slot :
    (size h i : ℕ)
    → h < size
    → i < size
    → dist size h i + 1 < size
    → dist size h (next_slot size i) ≡ dist size h i + 1
dist-next_slot size h i p q r = ground arith

pub dist-lt : (size h i : ℕ) → h < size → i < size → dist size h i < size
dist-lt size h i p q = ground arith

pub dist-injective :
    (size h i j : ℕ) → h < size → i < size → j < size → dist size h i ≡ dist size h j → i ≡ j
dist-injective size h i j p q r e = ground arith

pub next_slot-lt : (size i : ℕ) → i < size → next_slot size i < size
next_slot-lt size i p = ground arith

pub dist_self : (size h : ℕ) → dist size h h ≡ 0
dist_self size h = ground arith

-- On the way from `h` to `b`, by the distances from `h`.
pub dist_through :
    (size h a b : ℕ)
    → h < size
    → a < size
    → b < size
    → dist size h a ≤ dist size h b
    → dist size h a + dist size a b ≡ dist size h b
dist_through size h a b p q r d = ground arith

-- And by those to `b`.
pub dist_past :
    (size h a b : ℕ)
    → h < size
    → a < size
    → b < size
    → dist size a b ≤ dist size h b
    → dist size h a + dist size a b ≡ dist size h b
dist_past size h a b p q r d = ground arith

pub dist_apart : (size h a : ℕ) → h < size → a < size → (a ≡ h → ⊥) → 0 < dist size h a
dist_apart size h a p q n = ground arith

pub dist-next_slot_fst :
    (size i f : ℕ)
    → i < size
    → f < size
    → (i ≡ f → ⊥)
    → dist size i f ≡ dist size (next_slot size i) f + 1
dist-next_slot_fst size i f p q n = ground arith

pub dist_strict :
    (size h a b : ℕ)
    → h < size
    → a < size
    → b < size
    → (b ≡ a → ⊥)
    → dist size h a ≤ dist size h b
    → dist size h a < dist size h b
dist_strict size h a b p q r n d = ground arith

-- Between `m` and `b` is between `h` and `b`, where `m` is.
pub dist_beyond :
    (size h m a b : ℕ)
    → h < size
    → m < size
    → a < size
    → b < size
    → dist size h m < dist size h b
    → dist size m a < dist size m b
    → dist size h a < dist size h b
dist_beyond size h m a b p q r s d e = ground arith
