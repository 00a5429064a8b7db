-- ===== src/Tests/Tables.antt =====
-- The Bloom filter and the snapshots.
use jadedb.Common.{
  ℕ, ◌+◌, ◌*◌, ◌/◌, ◌-◌, ◌≤◌, ◌<◌, min, max, ◌≡◌, ◌⊎◌, refl, ◌==◌, if◌then◌else◌, true, [], ◌∷◌,
  All,
}
use jadedb.Common.Words.{u64_max}
use jadedb.Common.Result.{ok}
use jadedb.Snapshot.{
  SnapshotTracker, create_snapshot, release, watermark, position, minimum, swap_remove, drop_last,
  last_of,
}
use jadedb.Snapshot.Watermark.{count, count-release, watermark_lem}
use jadedb.Sstable.Bloom.{BloomFilter, build, may_contain}
use jadedb.Sstable.Bloom.Contains.{no_false_negative}
use jadedb.Tests.Data.{checksum, key_a, key_b}

abbrev open_3 : SnapshotTracker
open_3 = record { active = 4 ∷ 9 ∷ 4 ∷ [] }

release_run : release open_3 4 ≡ record { active = 4 ∷ 9 ∷ [] }
unfolding release position swap_remove drop_last last_of
release_run = refl

watermark_run : watermark open_3 ≡ 4
unfolding watermark minimum
watermark_run = refl

count-release_example :
    (count 4 (create_snapshot open_3 4).active ≡ (if 4 == 4 then 1 else 0) + count 4 open_3.active)
    × (count 4 (release open_3 4).active
        ≡ (if 4 == 4 then count 4 open_3.active - 1 else count 4 open_3.active))
count-release_example = count-release open_3 4 4

watermark_lem_example :
    All (λ s. watermark open_3 ≤ s) open_3.active
    × ((0 < count (watermark open_3) open_3.active)
        ⊎ ((open_3.active ≡ []) × (watermark open_3 ≡ u64_max)))
watermark_lem_example = watermark_lem open_3

-- seven probes for ten bits
abbrev probes : ℕ → ℕ
probes n = min (max (n * 69 / 100) 1) 30

no_false_negative_example :
    (f : BloomFilter) × (build checksum probes (key_a ∷ key_b ∷ []) 10 ≡ ok f)
    × All (λ key. may_contain checksum f key ≡ ok true) (key_a ∷ key_b ∷ [])
no_false_negative_example = no_false_negative checksum probes (key_a ∷ key_b ∷ []) 10

abbrev filter : BloomFilter
filter = record { bits = 1 ∷ 2 ∷ 3 ∷ []; nbits = 24; k = 7 }
