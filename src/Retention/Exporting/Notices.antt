-- ===== src/Retention/Exporting/Notices.antt =====
-- What the three alarms say after an export (the end of `_export_locked` of
-- src/sutradhara/retention_journal.py).
use sutradhara.Prelude.{
  ℕ, ◌≡◌, refl, String, Option, none, some, arith, if◌then◌else◌, ◌==◌, string_eq, subst, false,
}
use sutradhara.Jobs.Conditions.{Conditions}
use sutradhara.Jobs.Conditions.Keys.{Row, IsTable}
use sutradhara.Jobs.Conditions.Axes.{view}
use sutradhara.Retention.Status.{alarm_domain, project_journal_alarm}
use sutradhara.Retention.Status.Alarms.{
  Signal, cleared, raised_with, Says, signal_of, Projected, project_journal_alarm-Projected,
}
use sutradhara.Retention.Exporting.{Shipment, is_failed, shipping_message}

-- The alarm of the shipping is raised with the error, if there is one.
abbrev pub shipping_signal : Option String → Signal
shipping_signal none = cleared
shipping_signal (some e) =
    raised_with "shipping-failed" (if e == "" then "retention journal DR shipping succeeded" else e)

-- Each of the three alarms has a row that says what it should, and no other domain changes.
pub record Alarms (error : Option String) (t t' : Conditions) : Type 0 where
  pub export_alarm : Row
  pub export_row : view t' alarm_domain "export-failed" ≡ some export_alarm
  pub export_says : Says cleared export_alarm
  pub shipping_alarm : Row
  pub shipping_row : view t' alarm_domain "shipping-failed" ≡ some shipping_alarm
  pub shipping_says : Says (shipping_signal error) shipping_alarm
  pub stale_alarm : Row
  pub stale_row : view t' alarm_domain "export-stale" ≡ some stale_alarm
  pub stale_says : Says cleared stale_alarm
  pub other_domains :
      (domain key : String)
      → (if alarm_domain == domain then view t domain key else view t' domain key)
        ≡ view t domain key

signal_of-shipping :
    (error : Option String)
    → signal_of (is_failed error) "shipping-failed" (shipping_message error) ≡ shipping_signal error
signal_of-shipping none = refl
signal_of-shipping (some e) = refl

-- Three projections, one after the other.
Alarms-three :
    (error : Option String) (t t₁ t₂ t₃ : Conditions)
    → Projected "export-failed" cleared t t₁
    → Projected "shipping-failed" (shipping_signal error) t₁ t₂
    → Projected "export-stale" cleared t₂ t₃
    → Alarms error t t₃
Alarms-three error t t₁ t₂ t₃ a b c = record {
  export_alarm = a.row;
  export_row = ground (
    arith,
    c.rows alarm_domain "export-failed",
    b.rows alarm_domain "export-failed",
    a.rows alarm_domain "export-failed",
  );
  export_says = a.says;
  shipping_alarm = b.row;
  shipping_row =
      ground (arith, c.rows alarm_domain "shipping-failed", b.rows alarm_domain "shipping-failed");
  shipping_says = b.says;
  stale_alarm = c.row;
  stale_row = ground (arith, c.rows alarm_domain "export-stale");
  stale_says = c.says;
  other_domains =
      λ domain key. ground (arith, c.rows domain key, b.rows domain key, a.rows domain key);
}

pub Alarms-of :
    (clock : ℕ) (s : Shipment) (stale_message : String) (t : Conditions)
    → IsTable t
    → Alarms s.error t (
        project_journal_alarm clock "export-stale" false "export-stale" stale_message (
          project_journal_alarm clock "shipping-failed"
            (is_failed s.error)
            "shipping-failed"
            (shipping_message s.error)
            (project_journal_alarm clock "export-failed" false "export-failed"
              "retention journal export succeeded" t)))
Alarms-of clock s stale_message t w =
    let t₁ =
      project_journal_alarm clock "export-failed" false "export-failed"
        "retention journal export succeeded" t in
    let t₂ =
      project_journal_alarm clock "shipping-failed" (is_failed s.error) "shipping-failed"
        (shipping_message s.error) t₁ in
    let t₃ = project_journal_alarm clock "export-stale" false "export-stale" stale_message t₂ in
    let a =
      project_journal_alarm-Projected clock "export-failed" "export-failed"
        "retention journal export succeeded" t w false in
    let b =
      project_journal_alarm-Projected clock "shipping-failed" "shipping-failed"
        (shipping_message s.error) t₁ a.table (is_failed s.error) in
    let c =
      project_journal_alarm-Projected clock "export-stale" "export-stale" stale_message t₂ b.table
        false in
    Alarms-three s.error t t₁ t₂ t₃ a
      (subst (λ v. Projected "shipping-failed" v t₁ t₂) (signal_of-shipping s.error) b) c
