-- ===== src/Api/Albums/Settled.antt =====
-- How the views of albums can end, app/api/photos/albums/views.py.
use shelf_back.Base.Text.{Text}
use shelf_back.Base.Exec.{Exec, integrity_error, validation_error, operational_error}
use shelf_back.Base.Raises.{Raises}
use shelf_back.Photos.Albums
use shelf_back.Photos.AlbumService
use shelf_back.Api.{api_album_not_found, Reply, answer, refusal, failure}

-- A request is answered, or the album is not found, or the database refuses: a unique or a foreign key
-- is violated, a value is too long for its field, or there is no item to take out. Unless the request is
-- answered, the tables are as before.
pub data Settled {S A : Type 0} (s : S) : Reply A × S → Type 0 where
  answered : (a : A) (s' : S) → Settled s (answer a, s')
  not_found : Settled s (refusal api_album_not_found, s)
  violated : Settled s (failure integrity_error, s)
  too_long : Settled s (failure validation_error, s)
  no_items : Settled s (failure operational_error, s)
