-- ===== src/State/Restart.antt =====
-- What a restart keeps of the overrides (app/state.py): the file is read back into a fresh module.
use tv_zerodha_bot.Prelude.{
  String, ◌≡◌, refl, sym, ap, ◌∙◌, subst, Bool, true, false, ◌⊎◌, inl, inr, Option, none, some,
  List, [], ◌∷◌, ◌++◌, ◌==◌, string_eq, if◌then◌else◌, arith, eq_iff, Bool-cases, All,
}
use tv_zerodha_bot.Prelude.Dict.{Dict, lookup}
use tv_zerodha_bot.Numbers.{Numbers}
use tv_zerodha_bot.State.{
  Value, Globals, State, null, texts, reals, saved_rows, loaded_rows, assign, truthy, data_of,
  save_overrides, load_if_truthy, load_present, load_symbols, load_tunables, load_data,
  load_overrides_from_disk, load_file, initial_globals, restart,
}

abbrev pub is_in : String → List String → Bool
is_in x [] = false
is_in x (y ∷ ys) = if x == y then true else is_in x ys

abbrev pub names : List (String × String) → List String
names [] = []
names ((key, name) ∷ rows) = name ∷ names rows

is_in-append :
    (x : String) (ys zs : List String)
    → is_in x (ys ++ zs) ≡ (if is_in x ys then true else is_in x zs)
is_in-append x [] zs = refl
is_in-append x (y ∷ ys) zs = ground (arith, is_in-append x ys zs)

abbrev all_in : List String → List String → Bool
all_in [] zs = true
all_in (y ∷ ys) zs = if is_in y zs then all_in ys zs else false

is_in-subset :
    (x : String) (ys zs : List String) → all_in ys zs ≡ true → is_in x ys ≡ true → is_in x zs ≡ true
is_in-subset x [] zs h i = ground arith
is_in-subset x (y ∷ ys) zs h i = elim (Bool-cases (x == y)) [
  | inl same ↦ subst (λ z. is_in z zs ≡ true) (sym ((eq_iff x y).0 same)) (ground arith)
  | inr other ↦ is_in-subset x ys zs (ground arith) (ground arith)
]

is_in-same :
    (x : String) (ys zs : List String)
    → all_in ys zs ≡ true
    → all_in zs ys ≡ true
    → is_in x ys ≡ is_in x zs
is_in-same x ys zs h k = elim (Bool-cases (is_in x ys)) [
  | inl i ↦ i ∙ sym (is_in-subset x ys zs h i)
  | inr i ↦ elim (Bool-cases (is_in x zs)) [
    | inl j ↦ ground (arith, is_in-subset x zs ys k j)
    | inr j ↦ i ∙ sym j
  ]
]

abbrev special : List String
special = "_HEDGE_TUNABLE_OVERRIDES" ∷ "_ORDERFLOW_SYMBOLS_OVERRIDE" ∷ []

abbrev modes : List String
modes = "STOCK_MODE" ∷ "TRADE_MODE" ∷ []

gather :
    {A : Type 0} (x : String) (ks : List String) (kept other : A)
    → (if x == "_HEDGE_TUNABLE_OVERRIDES"
        then kept
        else if x == "_ORDERFLOW_SYMBOLS_OVERRIDE"
        then kept
        else if is_in x ks
        then kept
        else if x == "STOCK_MODE"
        then kept
        else if x == "TRADE_MODE"
        then kept
        else other)
      ≡ (if is_in x (special ++ (ks ++ modes)) then kept else other)
gather x ks kept other = ground (arith, is_in-append x ks modes)

module _ {n : Numbers} where
  open n use {Float}

  -- The variables of the rows whose key is stored.
  abbrev pub kept_name : String → Option (Value n) → List String → List String
  kept_name name none kept = kept
  kept_name name (some v) kept = name ∷ kept

  abbrev pub kept_names : List (String × String) → Dict String (Value n) → List String
  kept_names [] stored = []
  kept_names ((key, name) ∷ rows) stored =
      kept_name name (lookup key stored) (kept_names rows stored)

  -- What is stored for a row is the value of its variable.
  abbrev pub Stored : Dict String (Value n) → Globals n → String × String → Type 0
  Stored stored g row = (lookup row.0 stored ≡ some (g row.1)) ⊎ (lookup row.0 stored ≡ none)

  -- A variable that takes the value which it has in `g`.
  assign_from :
      (g h : Globals n) (name x : String)
      → assign name (g name) h x ≡ (if x == name then g x else h x)
  assign_from g h name x = elim (Bool-cases (x == name)) [
    | inl same ↦ rw same (ap g (sym ((eq_iff x name).0 same)))
    | inr other ↦ rw other refl
  ]

  load_present_lem :
      (rows : List (String × String)) (stored : Dict String (Value n)) (g h : Globals n)
      (x : String)
      → All (Stored stored g) rows
      → load_present rows stored h x ≡ (if is_in x (kept_names rows stored) then g x else h x)
  unfolding load_present
  load_present_lem [] stored g h x a = refl
  load_present_lem ((key, name) ∷ rows) stored g h x (inl found, a) =
      rw
        (found, load_present_lem rows stored g (assign name (g name) h) x a, assign_from g h name x)
        (ground arith)
  load_present_lem ((key, name) ∷ rows) stored g h x (inr missing, a) =
      rw missing (load_present_lem rows stored g h x a)

  All-Stored : (g : Globals n) → All (Stored (data_of saved_rows g) g) loaded_rows
  All-Stored g = (
    inl refl,
    (
      inl refl,
      (
        inl refl,
        (
          inl refl,
          (
            inl refl,
            (
              inl refl,
              (
                inl refl,
                (
                  inl refl,
                  (
                    inl refl,
                    (
                      inl refl,
                      (
                        inl refl,
                        (
                          inl refl,
                          (
                            inl refl,
                            (
                              inl refl,
                              (
                                inl refl,
                                (
                                  inr refl,
                                  (
                                    inl refl,
                                    (
                                      inl refl,
                                      (
                                        inl refl,
                                        (
                                          inl refl,
                                          (
                                            inl refl,
                                            (
                                              inl refl,
                                              (
                                                inl refl,
                                                (
                                                  inl refl,
                                                  (
                                                    inl refl,
                                                    (
                                                      inl refl,
                                                      (inl refl, (inl refl, (inl refl, tt))),
                                                    ),
                                                  ),
                                                ),
                                              ),
                                            ),
                                          ),
                                        ),
                                      ),
                                    ),
                                  ),
                                ),
                              ),
                            ),
                          ),
                        ),
                      ),
                    ),
                  ),
                ),
              ),
            ),
          ),
        ),
      ),
    ),
  )

  load_if_truthy_lem :
      (name : String) (g h : Globals n) (x : String)
      → truthy (g name) ≡ true
      → load_if_truthy name (some (g name)) h x ≡ (if x == name then g x else h x)
  unfolding load_if_truthy
  load_if_truthy_lem name g h x true_value = rw true_value (assign_from g h name x)

  load_tunables_lem :
      (g h : Globals n) (x : String) (d : Dict String Float)
      → g "_HEDGE_TUNABLE_OVERRIDES" ≡ reals d
      → load_tunables (some (g "_HEDGE_TUNABLE_OVERRIDES")) h x
        ≡ (if x == "_HEDGE_TUNABLE_OVERRIDES" then g x else h x)
  unfolding load_tunables
  load_tunables_lem g h x d is_reals = rw is_reals (
      subst
        (λ v.
          assign "_HEDGE_TUNABLE_OVERRIDES" v h x
          ≡ (if x == "_HEDGE_TUNABLE_OVERRIDES" then g x else h x))
        is_reals (assign_from g h "_HEDGE_TUNABLE_OVERRIDES" x))

  -- The list of symbols is a list, or it was never set.
  abbrev pub IsSymbols : Value n → Type 0
  IsSymbols v = ((l : List String) × (v ≡ texts l)) ⊎ (v ≡ null)

  load_symbols_lem :
      (g h : Globals n) (x : String)
      → IsSymbols (g "_ORDERFLOW_SYMBOLS_OVERRIDE")
      → h "_ORDERFLOW_SYMBOLS_OVERRIDE" ≡ null
      → load_symbols (some (g "_ORDERFLOW_SYMBOLS_OVERRIDE")) h x
        ≡ (if x == "_ORDERFLOW_SYMBOLS_OVERRIDE" then g x else h x)
  unfolding load_symbols
  load_symbols_lem g h x (inl (l, is_texts)) unset = rw is_texts (
      subst
        (λ v.
          assign "_ORDERFLOW_SYMBOLS_OVERRIDE" v h x
          ≡ (if x == "_ORDERFLOW_SYMBOLS_OVERRIDE" then g x else h x))
        is_texts (assign_from g h "_ORDERFLOW_SYMBOLS_OVERRIDE" x))
  load_symbols_lem g h x (inr is_null) unset =
      elim (Bool-cases (x == "_ORDERFLOW_SYMBOLS_OVERRIDE")) [
        | inl same ↦
            let named = (eq_iff x "_ORDERFLOW_SYMBOLS_OVERRIDE").0 same in
            rw (is_null, same) (ap h named ∙ (unset ∙ (sym is_null ∙ ap g (sym named))))
        | inr other ↦ rw (is_null, other) refl
      ]

  -- The values that the program gives to the variables that are tested when they are read.
  pub record IsTyped (g : Globals n) : Type 0 where
    pub trade_mode : truthy (g "TRADE_MODE") ≡ true
    pub stock_mode : truthy (g "STOCK_MODE") ≡ true
    pub symbols : IsSymbols (g "_ORDERFLOW_SYMBOLS_OVERRIDE")
    pub tunables : (d : Dict String Float) × (g "_HEDGE_TUNABLE_OVERRIDES" ≡ reals d)

  -- The variables after the two modes and the plain rows.
  abbrev after_modes : Globals n → Globals n
  after_modes g =
      load_if_truthy "STOCK_MODE" (some (g "STOCK_MODE"))
        (load_if_truthy "TRADE_MODE" (some (g "TRADE_MODE")) initial_globals)

  abbrev after_rows : Globals n → Globals n
  after_rows g = load_present loaded_rows (data_of saved_rows g) (after_modes g)

  after_modes_lem :
      (g : Globals n) (x : String)
      → IsTyped g
      → after_modes g x
        ≡ (if x == "STOCK_MODE" then g x else if x == "TRADE_MODE" then g x else initial_globals x)
  after_modes_lem g x t =
      load_if_truthy_lem "STOCK_MODE" g
        (load_if_truthy "TRADE_MODE" (some (g "TRADE_MODE")) initial_globals) x t.stock_mode
      ∙ ap (λ v. if x == "STOCK_MODE" then g x else v)
          (load_if_truthy_lem "TRADE_MODE" g initial_globals x t.trade_mode)

  after_rows_lem :
      (g : Globals n) (x : String)
      → IsTyped g
      → after_rows g x ≡ (
          if is_in x (kept_names loaded_rows (data_of saved_rows g))
          then g x
          else if x == "STOCK_MODE"
          then g x
          else if x == "TRADE_MODE"
          then g x
          else initial_globals x)
  after_rows_lem g x t =
      load_present_lem loaded_rows (data_of saved_rows g) g (after_modes g) x (All-Stored g)
      ∙ ap (λ v. if is_in x (kept_names loaded_rows (data_of saved_rows g)) then g x else v)
          (after_modes_lem g x t)

  after_rows_unset : (g : Globals n) → IsTyped g → after_rows g "_ORDERFLOW_SYMBOLS_OVERRIDE" ≡ null
  unfolding initial_globals
  after_rows_unset g t = after_rows_lem g "_ORDERFLOW_SYMBOLS_OVERRIDE" t

  -- The file, read into a fresh module.
  load_data_lem :
      (g : Globals n) (x : String)
      → IsTyped g
      → load_data (data_of saved_rows g) initial_globals x
        ≡ (if is_in x (names saved_rows) then g x else initial_globals x)
  unfolding load_data
  load_data_lem g x t =
      let ks = kept_names loaded_rows (data_of saved_rows g) in
      let with_symbols = load_symbols (some (g "_ORDERFLOW_SYMBOLS_OVERRIDE")) (after_rows g) in
      load_tunables_lem g with_symbols x t.tunables.0 t.tunables.1
      ∙ (ap (λ v. if x == "_HEDGE_TUNABLE_OVERRIDES" then g x else v)
            (load_symbols_lem g (after_rows g) x t.symbols (after_rows_unset g t)
              ∙ ap (λ v. if x == "_ORDERFLOW_SYMBOLS_OVERRIDE" then g x else v)
                  (after_rows_lem g x t))
          ∙ (gather x ks (g x) (initial_globals x)
              ∙ ap (λ b. if b then g x else initial_globals x)
                  (is_in-same x (special ++ (ks ++ modes)) (names saved_rows) refl refl)))

  -- If the file can be written, the two modes are not empty, the symbols are a list or were never
  -- set, and the thresholds are a dict of numbers, then after a write and a restart every variable
  -- that the file has holds its value again, and every other one its initial value.
  pub restart_restores :
      (s : State n) (x : String)
      → s.writable ≡ true
      → IsTyped s.globals
      → (restart (save_overrides s)).globals x
        ≡ (if is_in x (names saved_rows) then s.globals x else initial_globals x)
  unfolding restart save_overrides load_overrides_from_disk load_file
  restart_restores s x writable t = rw writable (load_data_lem s.globals x t)
