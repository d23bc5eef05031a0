-- ===== src/Protocol/Encode/Requests.antt =====
-- Each request of a valid key is one command line, with the words that the caller gave.
use emcache.Prelude.{
  ℕ, zero, suc, ◌≡◌, refl, ◌≢◌, Bool, true, false, Option, none, some, List, [], ◌∷◌, ◌++◌, arith,
  Bytes, All-append, codes, All, length, ◌==◌, ℤ, pos, negsuc,
}
use mathlib.Core.List.{append_assoc, append-nil}
use emcache.Decimal.{show}
use emcache.KeyValidation.Decides.{IsKey}
use emcache.Protocol.Text.{join}
use emcache.Protocol.Encode.{
  crlf, space, show_int, noreply_suffix, cas_suffix, fetch_data, storage_data, incr_decr_data,
  touch_data, delete_data, get_and_touch_data,
}
use emcache.Protocol.Encode.Framing.{
  read_request, read_request-words, IsToken, show-IsToken, show_int-IsToken, key-IsToken,
  keys-IsToken, noreply_words, cas_words, noreply-IsToken,
}

-- A request that is its words joined by blanks is read back as those words.
words_read :
    (s p : Bytes) (ps : List Bytes) (rest : Bytes)
    → s ≡ join space (p ∷ ps) ++ (crlf ++ rest)
    → All IsToken (p ∷ ps)
    → read_request s ≡ some (p ∷ ps, rest)
words_read s p ps rest e h = rw e (read_request-words p ps rest h)

-- A `get` or `gets` of valid keys is read as the command and these keys, and nothing is left over.
pub read_request-fetch_data :
    (cmd key : Bytes) (keys : List Bytes)
    → IsToken cmd
    → All IsKey (key ∷ keys)
    → read_request (fetch_data cmd (key ∷ keys)) ≡ some (cmd ∷ key ∷ keys, [])
unfolding fetch_data
read_request-fetch_data cmd key keys w h =
    words_read _ cmd (key ∷ keys) [] (unfold join in simp (append_assoc, append-nil))
      (w, keys-IsToken (key ∷ keys) h)

-- A `gat` or `gats` is read as the command, the expiration time and the keys.
pub read_request-get_and_touch_data :
    (cmd : Bytes) (exptime : ℤ) (key : Bytes) (keys : List Bytes)
    → IsToken cmd
    → All IsKey (key ∷ keys)
    → read_request (get_and_touch_data cmd exptime (key ∷ keys))
      ≡ some (cmd ∷ show_int exptime ∷ key ∷ keys, [])
unfolding get_and_touch_data
read_request-get_and_touch_data cmd exptime key keys w h =
    words_read _ cmd (show_int exptime ∷ key ∷ keys) []
      (unfold join in simp (append_assoc, append-nil))
      (w, (show_int-IsToken exptime, keys-IsToken (key ∷ keys) h))

cas-IsToken : (cas : Option ℤ) → All IsToken (cas_words cas)
cas-IsToken none = tt
cas-IsToken (some c) = (show_int-IsToken c, tt)

suc_ne_zero : (n : ℕ) → (suc n == 0) ≡ false
suc_ne_zero n = ground arith

suffixes :
    (p : Bytes) (noreply : Bool) (cas : Option ℤ)
    → cas ≢ some (pos 0)
    → join space (p ∷ (cas_words cas ++ noreply_words noreply))
      ≡ p ++ (cas_suffix cas ++ noreply_suffix noreply)
unfolding join cas_suffix noreply_suffix show_int
suffixes p true none h = refl
suffixes p false none h = simp append-nil
suffixes p true (some (pos zero)) h = absurd (h refl)
suffixes p false (some (pos zero)) h = absurd (h refl)
suffixes p true (some (pos (suc n))) h = rw (suc_ne_zero n) refl
suffixes p false (some (pos (suc n))) h = rw (suc_ne_zero n) (simp append-nil)
suffixes p true (some (negsuc n)) h = simp append_assoc
suffixes p false (some (negsuc n)) h = simp append-nil

-- A storage request of a valid key is read as its command, the key, the flags, the expiration time,
-- the exact size of the value, the cas number if there is one other than 0, and `noreply` if it was
-- asked for; then comes the value with its CRLF, whatever bytes the value has.
pub read_request-storage_data :
    (command key value : Bytes) (flags exptime : ℤ) (noreply : Bool) (cas : Option ℤ)
    → IsToken command
    → IsKey key
    → cas ≢ some (pos 0)
    → read_request (storage_data command key value flags exptime noreply cas)
      ≡ some (
        command
            ∷ key
            ∷ show_int flags
            ∷ show_int exptime
            ∷ show (length value)
            ∷ (cas_words cas ++ noreply_words noreply),
        value ++ crlf,
      )
unfolding storage_data
read_request-storage_data command key value flags exptime noreply cas w k h =
    words_read _ command _ (value ++ crlf)
      (let e = suffixes (show (length value)) noreply cas h in
        unfold join in rw e (simp append_assoc))
      (
        w,
        (
          key-IsToken key k,
          (
            show_int-IsToken flags,
            (
              show_int-IsToken exptime,
              (
                show-IsToken (length value),
                All-append IsToken _ _ (cas-IsToken cas) (noreply-IsToken noreply),
              ),
            ),
          ),
        ),
      )

-- With the cas number 0 the request is the one with no cas number: a server reads one word too few.
pub storage_data_cas_zero :
    (command key value : Bytes) (flags exptime : ℤ) (noreply : Bool)
    → storage_data command key value flags exptime noreply (some (pos 0))
      ≡ storage_data command key value flags exptime noreply none
unfolding storage_data cas_suffix
storage_data_cas_zero command key value flags exptime noreply = refl

noreply_words-join :
    (p : Bytes) (noreply : Bool)
    → join space (p ∷ noreply_words noreply) ≡ p ++ noreply_suffix noreply
unfolding join noreply_suffix
noreply_words-join p true = refl
noreply_words-join p false = simp append-nil

-- `incr`, `decr`, `touch` and `delete` of a valid key are read as their words, with `noreply` at the
-- end exactly if it was asked for, and nothing is left over.
pub read_request-key_commands :
    (command key : Bytes) (value : ℤ) (noreply : Bool)
    → IsToken command
    → IsKey key
    → (read_request (incr_decr_data command key value noreply)
        ≡ some (command ∷ key ∷ show_int value ∷ noreply_words noreply, []))
      × (read_request (touch_data key value noreply)
          ≡ some (codes "touch" ∷ key ∷ show_int value ∷ noreply_words noreply, []))
      × (read_request (delete_data key noreply)
          ≡ some (codes "delete" ∷ key ∷ noreply_words noreply, []))
unfolding incr_decr_data touch_data delete_data
read_request-key_commands command key value noreply w k =
    let e = noreply_words-join (show_int value) noreply in
    let f = noreply_words-join key noreply in
    let tail : All IsToken (show_int value ∷ noreply_words noreply) =
      (show_int-IsToken value, noreply-IsToken noreply) in
    (
      words_read _ command _ [] (unfold join in rw e (simp (append_assoc, append-nil)))
          (w, (key-IsToken key k, tail)),
      words_read _ (codes "touch") _ [] (unfold join in rw e (simp (append_assoc, append-nil)))
          (omega arith, (key-IsToken key k, tail)),
      words_read _ (codes "delete") _ [] (unfold join in rw f (simp (append_assoc, append-nil)))
          (omega arith, (key-IsToken key k, noreply-IsToken noreply)),
    )
