-- ===== src/S3/Uploads.antt =====
-- What an upload in parts leaves in the bucket: app/infrastructure/storage/s3/clients/async_client.py.
use shelf_back.Base.{ℕ, ◌≡◌, Option, List, ◌++◌, length, map}
use shelf_back.Base.Text.{Text}
use shelf_back.Base.Exec.{ok}
use shelf_back.S3.{Service}
use shelf_back.S3.Multipart.{upload_parts, sum_sizes, numbered}
use shelf_back.S3.Batches.{flat}
use shelf_back.S3.Laws.{number_from, IsMultipart}

module _ (S : Service) (bucket : Text) (objects : S.State → Text → Option Text)
    (parts : S.State → Text → List (Text × Text)) (M : IsMultipart S bucket objects parts) where
  -- The parts that the tasks have sent stand after those that were there.
  abbrev Sent : Text → Text → ℕ → List Text → S.State → Type 0
  Sent key upload_id n chunks s =
      (out : List (ℕ × Text × ℕ)) × (s' : S.State) × (qs : List (Text × Text)) × (upload_parts S
          bucket key upload_id n chunks s
        ≡ (ok out, s'))
      × (parts s' upload_id ≡ parts s upload_id ++ qs)
      × (map (λ p. p.1) qs ≡ chunks)
      × (map numbered out ≡ number_from n (map (λ p. p.0) qs))
      × (sum_sizes out ≡ length (flat chunks))
      × ((k : Text) → objects s' k ≡ objects s k)
