-- ===== src/RestClient.antt =====
-- `RestClient` of RestClient.cpp over libcurl, which is a parameter.
pub mod Upload
use dummy_client.Common.{
  ℕ, ◌+◌, ◌-◌, ◌*◌, ◌%◌, ◌^◌, List, [], ◌∷◌, ◌++◌, Bool, true, false, map, ltb,
}
use dummy_client.Common.{if◌then◌else◌, take, drop, length, not, Option, none, some, codes}
use dummy_client.Common.Int.{ℤ, pos, eqb_ℤ, signed32, bits32}

-- `RestClient::response`. A response whose code was never set has some value all the same.
pub record Response : Type 0 where
  pub code : ℤ
  pub body : List ℕ

-- `RestClient::upload_object`: the bytes from `data` on, and `length`, the count of those to send.
pub record UploadObject : Type 0 where
  pub content : List ℕ
  pub length : ℕ

-- What a request is set up with besides the URL and the header: nothing for a GET, the fields of a
-- POST, the callback of a PUT with its object and size, or the word of a custom request.
pub data Request : Type 0 where
  query : Request
  post_fields : List ℕ → Request
  upload_by : (ℕ → ℕ → UploadObject → List ℕ × UploadObject) → UploadObject → ℕ → Request
  custom_request : List ℕ → Request

-- A call of libcurl's `perform`: the pieces of the answer that it hands to the write callback,
-- each with its two sizes, its own result, and the status that `getinfo` gives behind it.
pub record Transfer : Type 0 where
  pub pieces : List (List ℕ × ℕ × ℕ)
  pub result : ℤ
  pub status : ℤ

pub record Curl (N : Type 0) : Type 0 where
  -- `curl_easy_init`: whether it returns a handle.
  pub init : N → Bool × N
  -- `curl_easy_perform`, with the URL and the lines of the header.
  pub perform : Request → List ℕ → List (List ℕ) → N → Transfer × N
  pub cleanup : N → N

-- `"first: second"`.
unfoldable pub header_line : List ℕ × List ℕ → List ℕ
header_line (first, second) = first ++ (b':' ∷ b' ' ∷ second)

-- `RestClient::write_callback`: the body with the piece behind it, and the count returned.
unfoldable pub write_callback : List ℕ × ℕ × ℕ → Response → Response × ℕ
write_callback (piece, size, nmemb) r =
    let count = (size * nmemb) % 2 ^ 64 in (record r { body = r.body ++ take count piece }, count)

-- libcurl calls the callback for each piece in turn.
unfoldable pub write_all : List (List ℕ × ℕ × ℕ) → Response → Response
write_all [] r = r
write_all (p ∷ ps) r = write_all ps (write_callback p r).0

-- The response behind a transfer; `http_code` is a `long`.
unfoldable pub transferred : ℤ → Transfer → Response
transferred indeterminate transfer =
    record (write_all transfer.pieces (record { code = indeterminate; body = [] })) {
      code = signed32 (bits32 transfer.status);
    }

-- `RestClient::get`. A failed transfer is only reported on `cerr`; the code is set all the same.
unfoldable pub get : {N : Type 0} → Curl N → ℤ → List ℕ → List (List ℕ × List ℕ) → N → Response × N
get curl indeterminate url header w =
    let (handle, w1) = curl.init w in
    let (transfer, w2) = curl.perform query url (map header_line header) w1 in
    if handle
    then (transferred indeterminate transfer, curl.cleanup w2)
    else (record { code = indeterminate; body = [] }, w1)

-- `RestClient::read_callback`: the bytes copied to libcurl's buffer, and what is left.
unfoldable pub read_callback : ℕ → ℕ → UploadObject → List ℕ × UploadObject
read_callback size nmemb u =
    let curl_size = (size * nmemb) % 2 ^ 64 in
    let copy_size = if ltb u.length curl_size then u.length else curl_size in
    (
      take copy_size u.content,
      record u { length = u.length - copy_size; content = drop copy_size u.content },
    )

-- What `post`, `put` and `del` share: a failed transfer ends the process, `none`.
unfoldable pub transfer_or_exit :
    {N : Type 0} → Curl N → ℤ → Request → List ℕ → List (List ℕ × List ℕ) → N → Option Response × N
transfer_or_exit curl indeterminate request url header w =
    let (handle, w1) = curl.init w in
    let (transfer, w2) = curl.perform request url (map header_line header) w1 in
    if handle
    then (if not (eqb_ℤ transfer.result (pos 0))
        then (none, w2)
        else (some (transferred indeterminate transfer), curl.cleanup w2))
    else (some (record { code = indeterminate; body = [] }), w1)

module _ {N : Type 0} (curl : Curl N) (indeterminate : ℤ) (url : List ℕ)
    (header : List (List ℕ × List ℕ)) where
  unfoldable pub post : List ℕ → N → Option Response × N
  post content = transfer_or_exit curl indeterminate (post_fields content) url header

  unfoldable pub put : List ℕ → N → Option Response × N
  put content =
      let up_obj : UploadObject = record { content = content; length = length content } in
      transfer_or_exit curl indeterminate (upload_by read_callback up_obj up_obj.length) url header

  unfoldable pub del : N → Option Response × N
  del = transfer_or_exit curl indeterminate (custom_request (codes "DELETE")) url header
