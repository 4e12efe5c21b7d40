-- ===== src/Expiry/Dates.antt =====
-- Lists of dates in ascending order (app/symbol_mapper.py, `list_expiries`).
use tv_zerodha_bot.Prelude.{
  ℕ, ◌<◌, String, ◌≡◌, refl, Bool, true, false, ◌&&◌, Option, none, some, List, [], ◌∷◌, All, keep,
  ltb, ◌==◌, nat_eq, string_eq, if◌then◌else◌, arith, Bool-cases, inl, inr,
}

-- What is read of a row of the table of instruments.
pub record Listed : Type 0 where
  pub name : String
  pub instrument_type : String
  pub expiry : Option ℕ

-- A date is filed in its place, unless it is there.
unfoldable pub file : ℕ → List ℕ → List ℕ
file d [] = d ∷ []
file d (e ∷ es) =
    let rest = file d es in if d == e then e ∷ es else if ltb d e then d ∷ e ∷ es else e ∷ rest

file_if : Bool → Option ℕ → List ℕ → List ℕ
unfolding file
file_if wanted none es = es
file_if wanted (some d) es = if wanted then file d es else es

-- `distinct()` and `order_by`
unfoldable pub list_expiries : (name instrument_type : String) → List Listed → List ℕ
unfolding file_if
list_expiries name instrument_type [] = []
list_expiries name instrument_type (i ∷ is) =
    file_if (i.name == name && i.instrument_type == instrument_type) i.expiry
      (list_expiries name instrument_type is)

-- `sorted`
unfoldable pub place : ℕ → List ℕ → List ℕ
place d [] = d ∷ []
place d (e ∷ es) = let rest = place d es in if ltb e d then e ∷ rest else d ∷ e ∷ es

unfoldable pub sorted : List ℕ → List ℕ
unfolding place
sorted [] = []
sorted (d ∷ ds) = place d (sorted ds)

abbrev pub Ascends : List ℕ → Type 0
Ascends [] = Unit
Ascends (d ∷ ds) = All (λ e. d < e) ds × Ascends ds

-- A lower bound can be lowered.
pub All-lower : (a b : ℕ) (ds : List ℕ) → a < b → All (λ e. b < e) ds → All (λ e. a < e) ds
All-lower a b [] h all = tt
All-lower a b (d ∷ ds) h all = (omega (arith, h, all), All-lower a b ds h all.1)

All-file : (a d : ℕ) (ds : List ℕ) → a < d → All (λ e. a < e) ds → All (λ e. a < e) (file d ds)
unfolding file
All-file a d [] h all = (h, tt)
All-file a d (e ∷ es) h all = elim (Bool-cases (d == e)) [
  | inl same ↦ rw same all
  | inr other ↦ elim (Bool-cases (ltb d e)) [
    | inl less ↦ rw (other, less) (h, all)
    | inr more ↦ rw (other, more) (all.0, All-file a d es h all.1)
  ]
]

pub file-Ascends : (d : ℕ) (ds : List ℕ) → Ascends ds → Ascends (file d ds)
unfolding file
file-Ascends d [] h = (tt, tt)
file-Ascends d (e ∷ es) h = elim (Bool-cases (d == e)) [
  | inl same ↦ rw same h
  | inr other ↦ elim (Bool-cases (ltb d e)) [
    | inl less ↦
        let d_e : d < e = ground (arith, less) in
        rw (other, less) ((d_e, All-lower d e es d_e h.0), h)
    | inr more ↦
        let e_d : e < d = ground (arith, more, other) in
        rw (other, more) (All-file e d es e_d h.0, file-Ascends d es h.1)
  ]
]

file_if-Ascends :
    (wanted : Bool) (o : Option ℕ) (ds : List ℕ) → Ascends ds → Ascends (file_if wanted o ds)
unfolding file_if
file_if-Ascends wanted none ds h = h
file_if-Ascends true (some d) ds h = file-Ascends d ds h
file_if-Ascends false (some d) ds h = h

pub list_expiries-Ascends :
    (name instrument_type : String) (is : List Listed)
    → Ascends (list_expiries name instrument_type is)
unfolding list_expiries
list_expiries-Ascends name instrument_type [] = tt
list_expiries-Ascends name instrument_type (i ∷ is) =
    file_if-Ascends (i.name == name && i.instrument_type == instrument_type) i.expiry
      (list_expiries name instrument_type is) (list_expiries-Ascends name instrument_type is)

pub All-keep :
    (a : ℕ) (p : ℕ → Bool) (ds : List ℕ) → All (λ e. a < e) ds → All (λ e. a < e) (keep p ds)
All-keep a p [] all = tt
All-keep a p (d ∷ ds) all = elim (Bool-cases (p d)) [
  | inl kept ↦ rw kept (all.0, All-keep a p ds all.1)
  | inr left ↦ rw left (All-keep a p ds all.1)
]

pub keep-Ascends : (p : ℕ → Bool) (ds : List ℕ) → Ascends ds → Ascends (keep p ds)
keep-Ascends p [] h = tt
keep-Ascends p (d ∷ ds) h = elim (Bool-cases (p d)) [
  | inl kept ↦ rw kept (All-keep d p ds h.0, keep-Ascends p ds h.1)
  | inr left ↦ rw left (keep-Ascends p ds h.1)
]

place-first : (d : ℕ) (ds : List ℕ) → All (λ e. d < e) ds → place d ds ≡ d ∷ ds
unfolding place
place-first d [] all = refl
place-first d (e ∷ es) all = let less : ltb e d ≡ false = ground (arith, all) in rw less refl

pub sorted-Ascends : (ds : List ℕ) → Ascends ds → sorted ds ≡ ds
unfolding sorted
sorted-Ascends [] h = refl
sorted-Ascends (d ∷ ds) h = rw (sorted-Ascends ds h.1) (place-first d ds h.0)
