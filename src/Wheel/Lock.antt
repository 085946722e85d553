-- ===== src/Wheel/Lock.antt =====
-- src/dy/wheel.rs: locking a wheel and unlocking it again.
use juggle.Prelude.{
  ℕ, ◌<◌, ◌≡◌, ◌≢◌, refl, false, none, some, [], ◌∷◌, length, length-set, get_elem?, get_elem?-set,
  get_elem?-append, get_elem?-middle, get_elem?-eq_none, lt_of_get_elem?, arith, ok,
}
use juggle.Wheel.{
  Shared, Memory, WheelHandle, Wheel, is_valid, set_strong, from_inner, lock, unlock,
}

module _ {A : Type 0} where
  -- The memory `h'` after the wheel `old` with the content `alg` was locked and unlocked, as `new`.
  pub record Relocked (old : Wheel) (alg : A) (h h' : Memory A) (new : Wheel) : Type 0 where
    pub content : get_elem? h' new.ptr ≡ some (record { alg = alg; strong = 1 })
    pub own_handle : new.handle.ptr ≡ new.ptr
    pub fresh : get_elem? h new.ptr ≡ none
    pub invalid : (handle : WheelHandle) → handle.ptr ≡ old.ptr → is_valid handle h' ≡ false
    pub others : (j : ℕ) → j ≢ old.ptr → j < length h → get_elem? h' j ≡ get_elem? h j

  -- Locking a wheel that no call is using and unlocking it gives a wheel with the same scheduler at a
  -- new address; the handles of the old one are not valid and those of other wheels are as before.
  pub unlock-lock :
      (wheel : Wheel) (alg : A) (h : Memory A)
      → get_elem? h wheel.ptr ≡ some (record { alg = alg; strong = 1 })
      → (h1 : Memory A) × (lock wheel h ≡ ok (record { alg = alg }, h1))
        × Relocked wheel alg h
            (unlock (record { alg = alg }) h1).1
            (unlock (record { alg = alg }) h1).0
  unfolding lock from_inner
  unlock-lock wheel alg h at = (
    h1,
    rw (at, lock) refl,
    record {
      content = get_elem?-middle h1 cell [];
      own_handle = refl;
      fresh = get_elem?-eq_none h (length h1) (omega (arith, same_length));
      invalid = λ handle same. ground (
        arith,
        same,
        same_length,
        at,
        lt_of_get_elem? h wheel.ptr at,
        get_elem?-append h1 (cell ∷ []) handle.ptr,
        get_elem?-set h wheel.ptr handle.ptr freed,
      );
      others = λ j ne lt. ground (
        arith,
        ne,
        lt,
        same_length,
        get_elem?-append h1 (cell ∷ []) j,
        get_elem?-set h wheel.ptr j freed,
      );
    },
  )
    where
      cell : Shared A
      cell = record { alg = alg; strong = 1 }

      freed : Shared A
      freed = record { alg = alg; strong = 0 }

      h1 : Memory A
      h1 = set_strong wheel.ptr cell 0 h

      same_length : length h1 ≡ length h
      same_length = length-set h wheel.ptr freed
