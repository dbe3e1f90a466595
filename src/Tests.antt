-- ===== src/Tests.antt =====
-- Runs of the model on concrete data, and the theorems at inputs that meet their hypotheses.
mod Api
mod Auth
mod Batch
mod Blobs
mod Bucket
mod KeyTexts
mod FilePath
mod Bookmarks
mod Config
mod FileSystem
mod Files
mod Photos
mod Requests
mod S3
mod Registration
mod Sharing
mod Users
mod Upload
