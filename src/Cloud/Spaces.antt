-- ===== src/Cloud/Spaces.antt =====
-- spaces.rs: the store of blobs behind presigned URLs. Who signs them, and HTTP, are parameters.
pub mod Names
use tuskd.Prelude.{
  ℕ, Bool, true, false, Option, none, some, List, [], ◌∷◌, ◌&&◌, ◌||◌, ◌==◌, ℕ_eq, leb, ltb,
  if◌then◌else◌,
}
use tuskd.Text.{Text}
use tuskd.BTreeMap.{text_lt}
use tuskd.SyncErrors.{SyncResult, SyncError, ok, err, ok_or, ◌>>=◌, not_found, storage, http, serde}
use package.tuskd.Cloud.Crypto.{SyncExec}
use package.tuskd.Cloud.Provider.{StorageProvider, validate_name}

pub data BlobOp : Type 0 where
  put get delete list : BlobOp

-- The status, and the body where it could be read.
pub record Response : Type 0 where
  pub status : ℕ
  pub body : Option Text

-- `PresignSource`, a request with the verb of the operation (`none`: no answer came), and serde_json.
pub record Http (World : Type 0) : Type 0 where
  pub url_for : BlobOp → Text → SyncExec World Text
  pub send : BlobOp → Text → Text → World → Option Response × World
  pub names_from_slice : Text → Option (List Text)

unfoldable pub is_success : Response → Bool
is_success r = leb 200 r.status && ltb r.status 300

abbrev pub not_found_status : ℕ
not_found_status = 404

abbrev pub status_err : Response → Text → SyncError
status_err r url = http r.status url

-- `text_lt` below or the same: the order of `sort`.
unfoldable pub insert_name : Text → List Text → List Text
unfolding text_lt
insert_name name [] = name ∷ []
insert_name name (other ∷ names) =
    let rest = insert_name name names in
    if text_lt other name then other ∷ rest else name ∷ other ∷ names

unfoldable pub sort_names : List Text → List Text
unfolding insert_name
sort_names [] = []
sort_names (name ∷ names) = insert_name name (sort_names names)

-- `?` on an action.
abbrev pub and_run :
    {World A B : Type 0} → SyncResult A × World → (A → SyncExec World B) → SyncResult B × World
and_run (ok a, w) rest = rest a w
and_run (err e, w) rest = (err e, w)

unfoldable pub put_answer : Text → Response → SyncResult (Unit {0})
unfolding is_success
put_answer url r = if is_success r then ok tt else err (status_err r url)

unfoldable pub get_answer : Text → Text → Response → SyncResult Text
unfolding is_success
get_answer name url r =
    if r.status == not_found_status
    then err (not_found name)
    else if is_success r
    then ok_or r.body (storage url)
    else err (status_err r url)

-- Deleting what is absent succeeds.
unfoldable pub delete_answer : Text → Response → SyncResult (Unit {0})
unfolding is_success
delete_answer url r =
    if r.status == not_found_status || is_success r then ok tt else err (status_err r url)

module _ {World : Type 0} (h : Http World) where
  abbrev sent : Text → Option Response × World → SyncResult Response × World
  sent url (r, w) = (ok_or r (storage url), w)

  unfoldable pub send : BlobOp → Text → Text → SyncExec World Response
  send op url body w = sent url (h.send op url body w)

  -- The URL, the request and what the answer means.
  abbrev pub requested :
      {A : Type 0} → BlobOp → Text → Text → (Text → Response → SyncResult A) → SyncExec World A
  requested op name body answer w =
      and_run (h.url_for op name w) λ url w. and_run (send op url body w) λ r w. (answer url r, w)

  abbrev pub checked : {A : Type 0} → Text → SyncExec World A → SyncExec World A
  checked name step w = and_run (validate_name name, w) (λ u. step)

  unfoldable pub spaces_put : Text → Text → SyncExec World (Unit {0})
  unfolding validate_name send put_answer
  spaces_put name bytes = checked name (requested BlobOp.put name bytes put_answer)

  unfoldable pub spaces_get : Text → SyncExec World Text
  unfolding validate_name send get_answer
  spaces_get name = checked name (requested BlobOp.get name [] (get_answer name))

  unfoldable pub spaces_delete : Text → SyncExec World (Unit {0})
  unfolding validate_name send delete_answer
  spaces_delete name = checked name (requested BlobOp.delete name [] delete_answer)

  unfoldable pub list_answer : Text → Response → SyncResult (List Text)
  unfolding is_success sort_names
  list_answer url r =
      if is_success r
      then (ok_or r.body (storage url) >>= λ bytes.
          ok_or (h.names_from_slice bytes) serde >>= λ names. ok (sort_names names))
      else err (status_err r url)

  unfoldable pub spaces_list : SyncExec World (List Text)
  unfolding send list_answer
  spaces_list = requested BlobOp.list [] [] list_answer

  abbrev pub spaces_provider : StorageProvider World
  spaces_provider = record {
    put = spaces_put;
    get = spaces_get;
    delete = spaces_delete;
    list = spaces_list;
  }
