-- ===== src/Blobs.antt =====
-- Stored contents: app/app/blobs. Changes of the storage are recorded as jobs, which a worker
-- carries out later. The storage and what is computed from a content are interfaces.
pub mod Repository
pub mod Service
pub mod Jobs
pub mod Progress
pub mod Passes
pub mod Worker
use shelf_back.Base.{List}
use shelf_back.Base.Int.{ℤ}
use shelf_back.Base.Text.{Text}
use shelf_back.Base.Exec.{Result}

-- `IBlobContent`, with what `mediatypes.guess` and `chash` make of it
pub record Content : Type 0 where
  pub size : ℤ
  pub chash : Text
  pub media_type : Text → Text

-- How `IStorage` answers. What it stores is not modelled.
pub record Storage : Type 0 where
  pub makedirs : Text → Result (Unit {0})
  pub save : Text → Content → Result ℤ
  pub delete_batch : List Text → Result (Unit {0})
  pub deletedir : Text → Result (Unit {0})
  pub move : Text → Text → Result (Unit {0})
  pub movedir : Text → Text → Result (Unit {0})
