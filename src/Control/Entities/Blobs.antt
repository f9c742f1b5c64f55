-- ===== src/Control/Entities/Blobs.antt =====
-- A blob that was stored is read back under its digest.
use asterun.Prelude.{
  ℕ, String, ◌≡◌, none, some, List, lookup, insert, arith, string_eq, nat_eq, list_eq, pair_eq,
  lookup-insert_self, ==_refl,
}
use asterun.Errors.{ok}
use asterun.Control.Db.{Db}
use asterun.Control.Entities.{put_blob, get_blob}

module _ (sha256 : List ℕ → String) where
  get-inserted :
      (n : String) (content stored : List ℕ) (s : Db)
      → lookup (n, sha256 content) s.blobs ≡ some stored
      → sha256 stored ≡ sha256 content
      → get_blob sha256 n (sha256 content) s ≡ (ok stored, s)
  unfolding get_blob
  get-inserted n content stored s row same = ground (
    arith,
    row,
    same,
    ==_refl (sha256 content),
    string_eq.equal_iff (sha256 stored) (sha256 content),
  )

  -- Storing a content under a digest that no other content of the namespace has answers with the
  -- digest, and from then on the digest reads back exactly that content, also when the content is
  -- stored again.
  pub get_blob-put_blob :
      (n : String) (content : List ℕ) (s : Db)
      → lookup (n, sha256 content) s.blobs ≡ none
      → (s' : Db) × (put_blob sha256 n content s ≡ (ok (sha256 content), s'))
        × (get_blob sha256 n (sha256 content) s' ≡ (ok content, s'))
        × (put_blob sha256 n content s' ≡ (ok (sha256 content), s'))
  unfolding put_blob get_blob
  get_blob-put_blob n content s new =
      let s' : Db = record s { blobs = insert (n, sha256 content) content s.blobs } in
      (
        s',
        ground (
          arith,
          new,
          lookup-insert_self (n, sha256 content) content s.blobs,
          ==_refl (sha256 content),
          ==_refl content,
        ),
        ground (
          arith,
          lookup-insert_self (n, sha256 content) content s.blobs,
          ==_refl (sha256 content),
        ),
        ground (
          arith,
          lookup-insert_self (n, sha256 content) content s.blobs,
          ==_refl (sha256 content),
          ==_refl content,
        ),
      )
