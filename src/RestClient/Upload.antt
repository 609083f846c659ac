-- ===== src/RestClient/Upload.antt =====
-- `read_callback` hands an upload to libcurl in order and whole, however libcurl cuts it.
use dummy_client.Common.{ℕ, ◌+◌, ◌-◌, ◌*◌, ◌%◌, ◌^◌, ◌≤◌, ◌≡◌, ◌∙◌, refl, sym, ap, arith}
use dummy_client.Common.{
  List, [], ◌∷◌, ◌++◌, length, append_assoc, append-nil, length-drop, take-append-drop,
}
use dummy_client.RestClient.{UploadObject, read_callback}

-- The uploads of successive calls, by the two sizes that each call is given.
pub upload : List (ℕ × ℕ) → UploadObject → List ℕ × UploadObject
upload [] u = ([], u)
upload ((size, nmemb) ∷ calls) u =
    let (bytes, u') = read_callback size nmemb u in
    let (rest, u'') = upload calls u' in (bytes ++ rest, u'')

-- The count is that of the bytes.
abbrev pub IsWhole : UploadObject → Type 0
IsWhole u = u.length ≡ length u.content

read_callback-IsWhole :
    (size nmemb : ℕ) (u : UploadObject) → IsWhole u → IsWhole (read_callback size nmemb u).1
unfolding read_callback
read_callback-IsWhole size nmemb u h =
    ground (arith, length-drop u.length u.content, length-drop ((size * nmemb) % 2 ^ 64) u.content)

read_callback-append :
    (size nmemb : ℕ) (u : UploadObject)
    → (read_callback size nmemb u).0 ++ (read_callback size nmemb u).1.content ≡ u.content
unfolding read_callback
read_callback-append size nmemb u = take-append-drop _ u.content

-- A call leaves what is over the room that it was given.
read_callback-left :
    (size nmemb : ℕ) (u : UploadObject)
    → (read_callback size nmemb u).1.length ≡ u.length - (size * nmemb) % 2 ^ 64
unfolding read_callback
read_callback-left size nmemb u = ground arith

-- The room that the calls give altogether; `size_t` has 64 bits.
unfoldable pub room : List (ℕ × ℕ) → ℕ
room [] = 0
room ((size, nmemb) ∷ calls) = (size * nmemb) % 2 ^ 64 + room calls

upload-append :
    (calls : List (ℕ × ℕ)) (u : UploadObject)
    → (upload calls u).0 ++ (upload calls u).1.content ≡ u.content
unfolding upload
upload-append [] u = refl
upload-append ((size, nmemb) ∷ calls) u =
    append_assoc (read_callback size nmemb u).0 _ _
    ∙ ap (λ xs. (read_callback size nmemb u).0 ++ xs)
        (upload-append calls (read_callback size nmemb u).1)
    ∙ read_callback-append size nmemb u

upload-left :
    (calls : List (ℕ × ℕ)) (u : UploadObject) → (upload calls u).1.length ≡ u.length - room calls
unfolding upload room
upload-left [] u = omega arith
upload-left ((size, nmemb) ∷ calls) u =
    omega (arith, upload-left calls (read_callback size nmemb u).1, read_callback-left size nmemb u)

upload-IsWhole : (calls : List (ℕ × ℕ)) (u : UploadObject) → IsWhole u → IsWhole (upload calls u).1
unfolding upload
upload-IsWhole [] u h = h
upload-IsWhole ((size, nmemb) ∷ calls) u h =
    upload-IsWhole calls (read_callback size nmemb u).1 (read_callback-IsWhole size nmemb u h)

nil_of_length : (xs : List ℕ) → length xs ≡ 0 → xs ≡ []
nil_of_length [] e = refl
nil_of_length (x ∷ xs) e = absurd (omega arith)

-- However libcurl cuts an upload into calls of the callback, once they have given room for all of
-- it they have returned the whole content, in order, and nothing else.
pub upload_whole :
    (calls : List (ℕ × ℕ)) (u : UploadObject)
    → IsWhole u
    → length u.content ≤ room calls
    → (upload calls u).0 ≡ u.content
upload_whole calls u h enough =
    sym (append-nil (upload calls u).0)
    ∙ ap (λ xs. (upload calls u).0 ++ xs)
        (sym (
          nil_of_length (upload calls u).1.content
            (omega (arith, upload-left calls u, upload-IsWhole calls u h))))
    ∙ upload-append calls u
