-- ===== src/Balance/Members.antt =====
-- src/utils/load.rs: the members of a group, from the first to the last.
use juggle.Prelude.{
  ℕ, ◌+◌, ◌≡◌, refl, inl, inr, Bool, true, false, ◌||◌, List, [], ◌∷◌, length, ◌==◌, if◌then◌else◌,
  arith, is_some, Bool-cases,
}
use juggle.Slab.{chunk_size}
use juggle.Slab
use juggle.Slab.Inv.{Absent, Distinct}
use juggle.Timing.Group.{IsGroup}
use juggle.Balance.{Shared}

-- Is `i` among the keys?
abbrev pub member : ℕ → List ℕ → Bool
member i [] = false
member i (j ∷ js) = j == i || member i js

abbrev pub without : ℕ → List ℕ → List ℕ
without i [] = []
without i (j ∷ js) = if j == i then js else j ∷ without i js

pub Absent-member : (i : ℕ) (js : List ℕ) → Absent i js → member i js ≡ false
Absent-member i [] h = refl
Absent-member i (j ∷ js) h = ground (arith, h.0, Absent-member i js h.1)

pub member-Absent : (i : ℕ) (js : List ℕ) → member i js ≡ false → Absent i js
member-Absent i [] h = tt
member-Absent i (j ∷ js) h = (ground (arith, h), member-Absent i js (ground (arith, h)))

pub without-length :
    (i : ℕ) (js : List ℕ) → member i js ≡ true → length (without i js) + 1 ≡ length js
without-length i [] h = cc
without-length i (j ∷ js) h = ground (arith, h, without-length i js)

pub member-without :
    (i j : ℕ) (js : List ℕ)
    → Distinct js
    → member j (without i js) ≡ (if i == j then false else member j js)
member-without i j [] d = ground arith
member-without i j (k ∷ js) d = ground (arith, Absent-member k js d.0, member-without i j js d.1)

pub Absent-without : (i j : ℕ) (js : List ℕ) → Absent j js → Absent j (without i js)
Absent-without i j [] h = tt
Absent-without i j (k ∷ js) h = ground (arith, h.0, h.1, Absent-without i j js h.1)

pub Distinct-without : (i : ℕ) (js : List ℕ) → Distinct js → Distinct (without i js)
Distinct-without i [] d = tt
Distinct-without i (k ∷ js) d = elim (Bool-cases (k == i)) [
  | inl e ↦ rw e d.1
  | inr e ↦ rw e (Absent-without i k js d.0, Distinct-without i js d.1)
]

module _ {C : Type 0} (m : ℕ) where
  -- `live` holds the indices of the `LoadBalance`s that there are.
  pub record Owned (live : List ℕ) (s : Shared C) : Type 0 where
    pub valid : IsGroup m s.group
    pub distinct : Distinct live
    pub owns : (j : ℕ) → is_some (Slab.get s.group.info j) ≡ member j live
    pub counted : s.group.info.len ≡ length live
    pub shared : s.strong ≡ length live
