-- ===== src/S3/Moves.antt =====
-- Moves, saves and downloads of objects of a bucket: app/infrastructure/storage/s3/storage.py and the
-- client under it.
use shelf_back.Base.Text.{Text}
