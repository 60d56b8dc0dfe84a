-- ===== src/Adb/Sync/Listing.antt =====
-- `ListDirectory` and `StatFile` of agent/server/adb/sync.go against the packets of the other side.
use droidmole.Base.{
  ℕ, zero, suc, ◌≤◌, ◌<◌, ◌≡◌, refl, ap, Bool, true, false, some, List, [], ◌∷◌, ◌++◌, append-nil,
  append_assoc, arith, if◌then◌else◌, length, All, length-append, Bytes, bytes, IsU32, u32, put_u32,
  get_u32,
}
use droidmole.Go.{eof, unexpected_eof, ok, err}
use droidmole.Net.{Conn}
use droidmole.Net.Laws.{arriving, sent, IsOpen, read_full-short}
use droidmole.Adb.Dial.{connected}
use droidmole.Adb.Raw
use droidmole.Adb.Raw.{shut}
use droidmole.Adb.Raw.Framing.{read_raw-append}
use droidmole.Adb.Sync.{entry_of, list_loop, list_directory, stat_answer, stat_file}
use droidmole.Adb.Sync.Handshake.{ready, accepted, open_emulator-okay, sync-okay, request-okay}
use droidmole.Adb.Sync.Packets.{
  id_dent_v2, id_done, id_stat_v2, id_lstat_v2, id_fail, file_stat_size, FileStat,
  ListDirectoryEntry, list_packet, stat_packet, stat_bytes, blob_header, IsFileStat, word,
  parse_file_stat-stat_bytes,
}

-- A directory entry as the other side sends it, the name last.
abbrev pub dent_packet : ListDirectoryEntry → Bytes
dent_packet e =
    put_u32 id_dent_v2
    ++ (put_u32 e.stat_error ++ (stat_bytes e.stat ++ put_u32 (u32 (length e.name))))

abbrev pub wire : List ListDirectoryEntry → Bytes → Bytes
wire [] tail = tail
wire (e ∷ es) tail = dent_packet e ++ (e.name ++ wire es tail)

pub record IsEntry (e : ListDirectoryEntry) : Type 0 where
  pub name_fits : IsU32 (length e.name)
  pub error_fits : IsU32 e.stat_error
  pub stat_fits : IsFileStat e.stat

entry_of-dent_packet : (e : ListDirectoryEntry) → IsEntry e → entry_of (dent_packet e) e.name ≡ e
entry_of-dent_packet e h = λ i. record {
  name = e.name;
  stat_error = word e.stat_error h.error_fits i;
  stat = parse_file_stat-stat_bytes e.stat h.stat_fits i;
}

module _ (c : Conn) (opened : c.closed ≡ false) (pad rest : Bytes) (padded : length pad ≡ 72) where
  abbrev ending_packet : Bytes
  ending_packet = put_u32 id_done ++ pad

  list_loop-wire :
      (es : List ListDirectoryEntry) (fuel : ℕ) (acc : List ListDirectoryEntry)
      → All IsEntry es
      → length es < fuel
      → list_loop fuel acc (arriving (wire es (ending_packet ++ rest)) c)
        ≡ (ok (some (acc ++ es)), arriving rest c)
  unfolding list_loop
  list_loop-wire es zero acc h l = absurd (omega arith)
  list_loop-wire [] (suc fuel) acc h l =
      rw (read_raw-append rest c opened 76 ending_packet (omega arith)) (rw append-nil)
  list_loop-wire (e ∷ es) (suc fuel) acc h l =
      rw
        (read_raw-append (e.name ++ wire es (ending_packet ++ rest)) c opened 76 (dent_packet e)
          refl)
        (rw
          (read_raw-append (wire es (ending_packet ++ rest)) c opened
            (get_u32 (put_u32 (u32 (length e.name)))) e.name (omega (arith, h.0.name_fits)))
          (rw (entry_of-dent_packet e h.0)
            (rw (list_loop-wire es fuel (acc ++ e ∷ []) h.1 (omega arith)) (rw append_assoc))))

length-wire : (es : List ListDirectoryEntry) (tail : Bytes) → length es ≤ length (wire es tail)
length-wire [] tail = omega arith
length-wire (e ∷ es) tail = omega (arith, length-append e.name (wire es tail), length-wire es tail)

-- On a working connection to a server that accepts both commands, `list_directory` writes them and
-- the path's packet and nothing else, returns the entries that the other side sent, in order and
-- with every field, and closes the connection.
pub list_directory-wire :
    (path pad rest : Bytes) (es : List ListDirectoryEntry) (c : Conn)
    → IsOpen c
    → length pad ≡ 72
    → All IsEntry es
    → list_directory path
        (connected (arriving (accepted (wire es (put_u32 id_done ++ pad ++ rest))) c))
      ≡ (ok (some es), some (shut (arriving rest (sent (list_packet path) (ready c)))))
unfolding list_directory
list_directory-wire path pad rest es c h padded hs =
    let body = wire es (put_u32 id_done ++ pad ++ rest) in
    rw (open_emulator-okay (bytes "OKAY" ++ body) c h) (
      rw (sync-okay body c h) (
        rw (request-okay body c h (list_packet path)) (
          rw (
            list_loop-wire (sent (list_packet path) (ready c)) h.opened pad rest padded es
              (suc (length body)) [] hs
              (omega (arith, length-wire es (put_u32 id_done ++ pad ++ rest)))))))

-- A stat as the other side sends it.
abbrev pub stat_reply : ℕ → ℕ → FileStat → Bytes
stat_reply id stat_error s = put_u32 id ++ (put_u32 stat_error ++ stat_bytes s)

stat_answer-reply :
    (lstat : Bool) (stat_error : ℕ) (s : FileStat) (d : Conn)
    → IsU32 stat_error
    → IsFileStat s
    → stat_answer (stat_reply (if lstat then id_lstat_v2 else id_stat_v2) stat_error s) d
      ≡ (ok (stat_error, s), d)
unfolding stat_answer
stat_answer-reply true stat_error s d he hs =
    λ i. (ok (word stat_error he i, parse_file_stat-stat_bytes s hs i), d)
stat_answer-reply false stat_error s d he hs =
    λ i. (ok (word stat_error he i, parse_file_stat-stat_bytes s hs i), d)

-- On a working connection to a server that accepts both commands, `stat_file` writes them and the
-- path's packet and nothing else, returns the error number and every field of the stat that the
-- other side sent, whichever of the two stat ids it used, and closes the connection.
pub stat_file-reply :
    (path rest : Bytes) (follow_links lstat : Bool) (stat_error : ℕ) (s : FileStat) (c : Conn)
    → IsOpen c
    → IsU32 stat_error
    → IsFileStat s
    → stat_file path follow_links (
        connected (
          arriving
            (accepted (stat_reply (if lstat then id_lstat_v2 else id_stat_v2) stat_error s ++ rest))
            c))
      ≡ (
        ok (stat_error, s),
        some (shut (arriving rest (sent (stat_packet path follow_links) (ready c)))),
      )
unfolding stat_file stat_answer
stat_file-reply path rest follow_links lstat stat_error s c h he hs =
    let reply = stat_reply (if lstat then id_lstat_v2 else id_stat_v2) stat_error s in
    rw (open_emulator-okay (bytes "OKAY" ++ (reply ++ rest)) c h) (
      rw (sync-okay (reply ++ rest) c h) (
        rw (request-okay (reply ++ rest) c h (stat_packet path follow_links)) (
          rw
            (read_raw-append rest (sent (stat_packet path follow_links) (ready c)) h.opened 72 reply
              refl)
            (ap (λ r. (r.0, some (shut r.1)))
              (stat_answer-reply lstat stat_error s
                (arriving rest (sent (stat_packet path follow_links) (ready c))) he hs)))))

-- `stat_file` reads a whole stat before it looks at the id: where the other side answers with a
-- failure whose message is shorter than a stat and ends the stream, the result is an unexpected end
-- of file, whatever the message was.
pub stat_file_short_failure :
    (path msg : Bytes) (follow_links : Bool) (c : Conn)
    → IsOpen c
    → c.ending ≡ eof
    → length msg < file_stat_size
    → (stat_file path follow_links
        (connected (arriving (accepted (blob_header id_fail msg ++ msg)) c))).0
      ≡ err unexpected_eof
unfolding stat_file Raw.read_raw
stat_file_short_failure path msg follow_links c h ends short =
    let reply = blob_header id_fail msg ++ msg in
    rw (open_emulator-okay (bytes "OKAY" ++ reply) c h) (
      rw (sync-okay reply c h) (
        rw (request-okay reply c h (stat_packet path follow_links)) (
          rw (
            read_full-short 72 reply (sent (stat_packet path follow_links) (ready c)) h.opened ends
              (omega arith) (omega (arith, short))))))
