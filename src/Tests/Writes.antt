-- ===== src/Tests/Writes.antt =====
-- Writes to an open database.
use jadedb.Common.{◌≡◌, refl, some, false, arith, [], ◌∷◌, if◌then◌else◌}
use jadedb.Common.Result.{ok}
use jadedb.Options
use jadedb.Options.{always}
use jadedb.Key.{put}
use jadedb.Key.Versions.{sees}
use jadedb.Memtable.{new}
use jadedb.Wal.{create}
use jadedb.Db.Memory.{Inner, done, next_key, apply_write, write, get_memory}
use jadedb.Db.Memory.Write.{IsCurrent, get_memory-write}
use jadedb.Memtable.{get}
use jadedb.Wal.{recover}
use jadedb.Wal.Codec.{IsStorable}
use jadedb.Db.{replay}
use jadedb.Db.Memory.Restart.{IsFresh, Writes, fresh, wrote, restart_lem}
use jadedb.Tests.Data.{checksum, checksum-IsU32, write_1, key_a}

abbrev opened : Inner
opened = record {
  opts = Options.for_tests;
  mem = new;
  imms = [];
  l0_num_files = 0;
  wal = create always;
  next_seq = 0;
  is_closed = false;
  stall_count = 0;
}

write_done :
    write checksum opened key_a (b'1' ∷ []) put
    ≡ ok (done (apply_write checksum opened key_a (b'1' ∷ []) put))
unfolding write
write_done = refl

one-IsStorable : IsStorable write_1
one-IsStorable = record { short = omega arith; seq_fits = omega arith }

get_memory-write_example :
    IsCurrent (apply_write checksum opened key_a (b'1' ∷ []) put)
    × (get_memory (apply_write checksum opened key_a (b'1' ∷ []) put) key_a 5 ≡ (
        if sees key_a 5 (next_key opened key_a put)
        then some (record { kind = put; value = b'1' ∷ [] })
        else get_memory opened key_a 5))
get_memory-write_example =
    get_memory-write checksum opened (apply_write checksum opened key_a (b'1' ∷ []) put) key_a
      (b'1' ∷ []) put key_a 5 (record { sorted = tt; given = tt }) (omega arith) write_done

opened-IsFresh : IsFresh opened
opened-IsFresh = record { no_writes = refl; no_frozen = refl; no_log = refl; no_seq = refl }

abbrev after_put : Inner
after_put = apply_write checksum opened key_a (b'1' ∷ []) put

one_put : Writes checksum after_put (write_1 ∷ [])
one_put =
    wrote opened after_put [] key_a (b'1' ∷ []) put (fresh opened opened-IsFresh) (omega arith)
      write_done

restart_lem_example :
    (recover checksum (some after_put.wal.content) ≡ ok (write_1 ∷ []))
    × (get (replay 0 new (write_1 ∷ [])).1 key_a 7 ≡ get_memory after_put key_a 7)
restart_lem_example =
    restart_lem checksum after_put (write_1 ∷ []) key_a 7 checksum-IsU32 one_put
      (one-IsStorable, tt)
