-- ===== src/Tests/Registration.antt =====
-- A sign-up with a name that is taken.
use shelf_back.Base.{true, some}
use shelf_back.Base.Text.{codes, text_eq}
use shelf_back.Base.Rollback.{Restores}
use shelf_back.Users.{Credentials}
use shelf_back.Registration.{signup, create_superuser}
use shelf_back.Registration.Rollback.{failed_registration}
use shelf_back.Tests.Auth as AuthTests
use shelf_back.Tests.Users as UserTests
use shelf_back.Tests.Files.{ascii_env}

abbrev plain : Credentials
plain = record {
  make_password = λ s. s;
  check_password = text_eq;
  is_email = λ s. true;
  strip = λ s. s;
}

failed_registration_example :
    Restores (
      signup UserTests.memory AuthTests.memory ascii_env plain 10 AuthTests.plain_jwt AuthTests.ttl
        (codes "family")
        (codes "id-0")
        (some 100)
        (codes "alice")
        (codes "secret")
        (codes "Alice"))
    × Restores (
        create_superuser UserTests.memory AuthTests.memory ascii_env plain 10
          (codes "alice")
          (codes "secret"))
failed_registration_example =
    failed_registration UserTests.memory AuthTests.memory ascii_env plain 10 AuthTests.plain_jwt
      AuthTests.ttl (codes "family") (codes "id-0") (codes "alice") (codes "secret") (codes "Alice")
      (some 100)
