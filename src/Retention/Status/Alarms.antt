-- ===== src/Retention/Status/Alarms.antt =====
-- What the rows of the alarms say (`project_journal_alarm` of src/sutradhara/retention_journal.py).
use sutradhara.Prelude.{
  ℕ, ◌≡◌, refl, sym, subst, String, Bool, true, false, none, some, arith, if◌then◌else◌, ◌&&◌, ◌==◌,
  string_eq,
}
use sutradhara.Jobs.Model.{open', satisfied}
use sutradhara.Jobs.Conditions.{
  Conditions, record_observation, observe, save, mark_satisfied, observed_present,
}
use sutradhara.Jobs.Conditions.Keys.{Row, IsTable, SameIdentity}
use sutradhara.Jobs.Conditions.Axes.{
  view, view-save, save_found-IsTable, found_or_new, record_observation-view,
  record_observation-IsTable,
}
use sutradhara.Retention.Status.{alarm_domain, raise_alarm, project_journal_alarm}

-- An alarm is cleared, or open with its reason and message.
pub data Signal : Type 0 where
  cleared : Signal
  raised_with : String → String → Signal

abbrev pub Says : Signal → Row → Type 0
Says cleared row = row.condition ≡ satisfied
Says (raised_with reason message) row =
    (row.condition ≡ open') × (row.reason ≡ some reason) × (row.message ≡ some message)

abbrev pub signal_of : Bool → String → String → Signal
signal_of true reason message = raised_with reason message
signal_of false reason message = cleared

-- The row of one alarm says it, and every other key keeps its row.
pub record Projected (key : String) (s : Signal) (t t' : Conditions) : Type 0 where
  pub row : Row
  pub says : Says s row
  pub rows :
      (d k : String)
      → view t' d k ≡ (if alarm_domain == d && key == k then some row else view t d k)
  pub table : IsTable t'

-- The row that an active alarm gets.
abbrev opened : String → String → Row → Row
opened reason message row = record row {
  condition = open';
  reason = some reason;
  message = some message;
}

raise_alarm-found :
    (key reason message : String) (t : Conditions) (row : Row)
    → view t alarm_domain key ≡ some row
    → raise_alarm key reason message t ≡ record t { rows = save (opened reason message row) t.rows }
unfolding raise_alarm
raise_alarm-found key reason message t row found = cc found

module _ (clock : ℕ) (key reason message : String) (t : Conditions) (w : IsTable t) where
  cleared-Projected :
      Projected key cleared t (project_journal_alarm clock key false reason message t)
  unfolding project_journal_alarm observe mark_satisfied
  cleared-Projected = record {
    row =
        observe clock false observed_present none none
          (found_or_new clock alarm_domain key observed_present t);
    says = refl;
    rows = record_observation-view clock alarm_domain key false observed_present none none t w;
    table = record_observation-IsTable clock alarm_domain key false observed_present none none t w;
  }

  raised-Projected :
      Projected key
        (raised_with reason message)
        t
        (project_journal_alarm clock key true reason message t)
  unfolding project_journal_alarm
  raised-Projected =
      let t' = record_observation clock alarm_domain key true "missing" none none t in
      let row =
        observe clock true "missing" none none (found_or_new clock alarm_domain key "missing" t) in
      let rows = record_observation-view clock alarm_domain key true "missing" none none t w in
      let w' = record_observation-IsTable clock alarm_domain key true "missing" none none t w in
      let found : view t' alarm_domain key ≡ some row =
        ground (arith, rows alarm_domain key, string_eq.same_iff key key) in
      let row' : Row = opened reason message row in
      let same : SameIdentity row' row = record { id = refl; domain = refl; target_key = refl } in
      subst (Projected key (raised_with reason message) t)
        (sym (raise_alarm-found key reason message t' row found))
        (record {
          row = row';
          says = (refl, refl, refl);
          rows = λ d k.
              ground (arith, view-save alarm_domain key t' row row' found same w' d k, rows d k);
          table = save_found-IsTable alarm_domain key t' row row' found same w';
        })

  pub project_journal_alarm-Projected :
      (active : Bool)
      → Projected key
          (signal_of active reason message)
          t
          (project_journal_alarm clock key active reason message t)
  project_journal_alarm-Projected true = raised-Projected
  project_journal_alarm-Projected false = cleared-Projected
