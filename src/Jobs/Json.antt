-- ===== src/Jobs/Json.antt =====
-- JSON values as far as the job code looks into one (`job.params`, `job.required_resources`).
use sutradhara.Prelude.{String, Bool}
use sutradhara.Prelude.Int.{ℤ}

-- `other` is a float, an array or an object, which that code only tells apart from the rest.
pub data Json : Type 0 where
  null other : Json
  boolean : Bool → Json
  int : ℤ → Json
  str : String → Json
