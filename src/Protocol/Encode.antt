-- ===== src/Protocol/Encode.antt =====
-- The requests that the methods of `MemcacheAsciiProtocol` write (emcache/protocol.py).
pub mod Framing
pub mod Requests
use emcache.Prelude.{
  ℕ, suc, ◌≡◌, refl, Bool, true, false, Option, none, some, List, [], ◌∷◌, ◌++◌, Bytes, codes,
  length, ◌==◌, if◌then◌else◌, ℤ, pos, negsuc,
}
use emcache.Decimal.{show}
use emcache.Protocol.Text.{join}

abbrev pub crlf : Bytes
crlf = 13 ∷ 10 ∷ []

abbrev pub space : Bytes
space = 32 ∷ []

-- `b"%a" % n`.
unfoldable pub show_int : ℤ → Bytes
show_int (pos n) = show n
show_int (negsuc n) = b'-' ∷ show (suc n)

-- The suffix that asks the server for no reply.
unfoldable pub noreply_suffix : Bool → Bytes
noreply_suffix noreply = if noreply then codes " noreply" else []

-- `if cas:` holds of a number that is there and is not 0.
unfoldable pub cas_suffix : Option ℤ → Bytes
cas_suffix none = []
cas_suffix (some c) = elim c [
  | pos n ↦ (if n == 0 then [] else space ++ show n)
  | negsuc n ↦ space ++ (b'-' ∷ show (suc n))
]

unfoldable pub fetch_data : Bytes → List Bytes → Bytes
fetch_data cmd keys = cmd ++ (space ++ (join space keys ++ crlf))

-- The words of the command line, and the line.
unfoldable pub storage_line : Bytes → Bytes → ℕ → ℤ → ℤ → Bool → Option ℤ → Bytes
storage_line command key size flags exptime noreply cas =
    command
    ++ (space
        ++ (key
            ++ (space
                ++ (show_int flags
                    ++ (space
                        ++ (show_int exptime
                            ++ (space
                                ++ (show size ++ (cas_suffix cas ++ noreply_suffix noreply)))))))))

unfoldable pub storage_data : Bytes → Bytes → Bytes → ℤ → ℤ → Bool → Option ℤ → Bytes
unfolding storage_line
storage_data command key value flags exptime noreply cas =
    storage_line command key (length value) flags exptime noreply cas ++ (crlf ++ (value ++ crlf))

unfoldable pub incr_decr_data : Bytes → Bytes → ℤ → Bool → Bytes
incr_decr_data command key value noreply =
    command ++ (space ++ (key ++ (space ++ (show_int value ++ (noreply_suffix noreply ++ crlf)))))

unfoldable pub touch_data : Bytes → ℤ → Bool → Bytes
touch_data key exptime noreply =
    codes "touch " ++ (key ++ (space ++ (show_int exptime ++ (noreply_suffix noreply ++ crlf))))

unfoldable pub flush_all_data : ℤ → Bool → Bytes
flush_all_data delay noreply =
    codes "flush_all " ++ (show_int delay ++ (noreply_suffix noreply ++ crlf))

unfoldable pub delete_data : Bytes → Bool → Bytes
delete_data key noreply = codes "delete " ++ (key ++ (noreply_suffix noreply ++ crlf))

unfoldable pub autodiscovery_data : Bytes
autodiscovery_data = codes "config get cluster" ++ crlf

unfoldable pub version_data : Bytes
version_data = codes "version" ++ crlf

unfoldable pub get_and_touch_data : Bytes → ℤ → List Bytes → Bytes
get_and_touch_data cmd exptime keys =
    cmd ++ (space ++ (show_int exptime ++ (space ++ (join space keys ++ crlf))))

unfoldable pub cache_memlimit_data : ℤ → Bool → Bytes
cache_memlimit_data value noreply =
    codes "cache_memlimit " ++ (show_int value ++ (noreply_suffix noreply ++ crlf))

-- The arguments are given encoded in UTF-8.
unfoldable pub stats_data : List Bytes → Bytes
stats_data [] = codes "stats" ++ crlf
stats_data (a ∷ args) = codes "stats " ++ (join space (a ∷ args) ++ crlf)

unfoldable pub verbosity_data : ℤ → Bool → Bytes
verbosity_data level noreply =
    codes "verbosity " ++ (show_int level ++ (noreply_suffix noreply ++ crlf))
