-- ===== src/Correctness/Tables.antt =====
-- The tables behind the fire and water economy (GameWeekFire, GameCorrectnessState, GameEvent and
-- GameIncident of apps/server/backend/app/models.py). Instants are whole seconds, so that
-- `replace(microsecond=0)` changes nothing; a week is named by the instant at which it starts.
use ynab_receipt_analyzer.Prelude.{
  ℕ, ◌+◌, ◌≡◌, ◌↔◌, Bool, true, false, ◌&&◌, Option, none, some, List, [], ◌∷◌, arith, ◌==◌, ltb,
  if◌then◌else◌,
}

pub record WeekFire : Type 0 where
  pub week_start_at : ℕ
  pub flames_active : ℕ
  pub burnt : Bool
  pub last_flame_at : Option ℕ

-- A new row for a week.
abbrev pub blank : ℕ → WeekFire
blank w = record { week_start_at = w; flames_active = 0; burnt = false; last_flame_at = none }

-- The row of a week; a week with no row has the values of a new one. (`week_start_at` is unique.)
unfoldable pub row_at : ℕ → List WeekFire → WeekFire
row_at w [] = blank w
row_at w (r ∷ rs) = if r.week_start_at == w then r else row_at w rs

unfoldable pub has_row : ℕ → List WeekFire → Bool
has_row w [] = false
has_row w (r ∷ rs) = if r.week_start_at == w then true else has_row w rs

-- The table after the row of `r.week_start_at` is written.
unfoldable pub put_row : WeekFire → List WeekFire → List WeekFire
put_row r [] = r ∷ []
put_row r (x ∷ xs) = if x.week_start_at == r.week_start_at then r ∷ xs else x ∷ put_row r xs

-- `_get_or_create_week_fire`: the table in which the week has a row.
unfoldable pub ensure_row : ℕ → List WeekFire → List WeekFire
unfolding put_row row_at
ensure_row w rows = put_row (row_at w rows) rows

-- `get_total_active_flames`
unfoldable pub total_active_flames : List WeekFire → ℕ
total_active_flames [] = 0
total_active_flames (r ∷ rs) = (if r.burnt then 0 else r.flames_active) + total_active_flames rs

-- `get_burnt_week_count`
unfoldable pub burnt_week_count : List WeekFire → ℕ
burnt_week_count [] = 0
burnt_week_count (r ∷ rs) = (if r.burnt then 1 else 0) + burnt_week_count rs

-- `order_by(flames_active.desc(), week_start_at.asc())`: whether `a` stands before `b`.
abbrev pub burns_before : WeekFire → WeekFire → Bool
burns_before a b =
    if a.flames_active == b.flames_active
    then ltb a.week_start_at b.week_start_at
    else ltb b.flames_active a.flames_active

abbrev pub worse_of : WeekFire → Option WeekFire → WeekFire
worse_of r none = r
worse_of r (some v) = if burns_before v r then v else r

-- The first non-burnt row in that order.
unfoldable pub worst_week : List WeekFire → Option WeekFire
worst_week [] = none
worst_week (r ∷ rs) =
    let worst = worst_week rs in if r.burnt then worst else some (worse_of r worst)

-- The forms of the idempotency keys that the economy derives from a caller's key.
pub data Form : Type 0 where
  plain unit burnt_week douse_water douse_extinguished week_burned water extinguished : Form

abbrev pub form_code : Form → ℕ
form_code plain = 0
form_code unit = 1
form_code burnt_week = 2
form_code douse_water = 3
form_code douse_extinguished = 4
form_code week_burned = 5
form_code water = 6
form_code extinguished = 7

-- A key text, by its form, the caller's key, the unit's index and the week that it names. Texts of
-- different forms are different texts as long as no caller's key ends in one of the suffixes.
pub record Key : Type 0 where
  pub form : Form
  pub caller : ℕ
  pub index : ℕ
  pub week : ℕ

abbrev pub key_eq : Key → Key → Bool
key_eq j k =
    (form_code j.form == form_code k.form)
    && ((j.caller == k.caller) && ((j.index == k.index) && (j.week == k.week)))

pub key_eq_iff : (j k : Key) → (key_eq j k ≡ true) ↔ (j ≡ k)
key_eq_iff j k = ground arith
