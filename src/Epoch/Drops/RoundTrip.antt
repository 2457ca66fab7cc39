-- ===== src/Epoch/Drops/RoundTrip.antt =====
-- limnifs-core/src/epoch/drop_payload.rs: the drops' parser on what the writer writes.
use limnifs.Prelude.{ℕ, ◌^◌, ◌<◌, ◌≡◌, refl, List, [], ◌++◌, append_assoc, length}
use limnifs.Cursor.{Cursor, read_n, read_u8, read_u32_le}
use limnifs.Cursor.Steps.{follow}
use limnifs.Cursor.Rules.{Runs, Runs-bind, Runs-weaken, At, Reads}
use limnifs.Cursor.Reads.{read_n-Runs, read_u8-Runs, read_u32-Runs}
use limnifs.Cursor.Loops.{parse_list-Runs, Goods}
use limnifs.Error.{Section}
use limnifs.Epoch.Named.{named-Runs}
use limnifs.Epoch.Drops.{
  EpochDrop, write_one_drop, write_drop_section, parse_one_drop, parse_drop_section,
}

pub record IsDrop (d : EpochDrop) : Type 0 where
  pub id : length d.drop_id ≡ 32
  pub plaintext : d.plaintext_len < 2 ^ 32
  pub counted : length d.payload < 2 ^ 32

drop-Runs :
    (seen : List EpochDrop) (d : EpochDrop) (c : Cursor) (rest : List ℕ)
    → IsDrop d
    → At c (write_one_drop d ++ rest)
    → Runs d (Reads c (write_one_drop d) rest) (parse_one_drop c)
unfolding parse_one_drop write_one_drop
drop-Runs seen d c rest w a =
    let a' = simp append_assoc at a in
    Runs-bind _
      (named-Runs Section.epoch_drops (read_n 32) c (read_n-Runs 32 c d.drop_id _ w.id a'))
      λ c1 (s1, a1).
        Runs-bind _ (named-Runs Section.epoch_drops read_u8 c1 (read_u8-Runs c1 d.codec _ a1))
          λ c2 (s2, a2).
            Runs-bind _
              (named-Runs Section.epoch_drops read_u32_le c2
                (read_u32-Runs c2 d.plaintext_len _ w.plaintext a2))
              λ c3 (s3, a3).
                Runs-bind _
                  (named-Runs Section.epoch_drops read_u32_le c3
                    (read_u32-Runs c3 (length d.payload) _ w.counted a3))
                  λ c4 (s4, a4).
                    Runs-bind _
                      (named-Runs Section.epoch_drops (read_n (length d.payload)) c4
                        (read_n-Runs (length d.payload) c4 d.payload rest refl a4))
                      λ c5 (s5, a5).
                        (c5, refl, (follow s1 (follow s2 (follow s3 (follow s4 s5))), a5))

pub record AreDrops (drops : List EpochDrop) : Type 0 where
  pub counted : length drops < 2 ^ 32
  pub fit : Goods (λ _. IsDrop) [] drops

pub section-Runs :
    (drops : List EpochDrop) (c : Cursor) (rest : List ℕ)
    → AreDrops drops
    → At c (write_drop_section drops ++ rest)
    → Runs drops (Reads c (write_drop_section drops) rest) (parse_drop_section c)
unfolding parse_drop_section write_drop_section
section-Runs drops c rest w a =
    let a' = simp append_assoc at a in
    Runs-bind _
      (named-Runs Section.epoch_drops read_u32_le c (read_u32-Runs c (length drops) _ w.counted a'))
      λ c1 (s1, a1).
        Runs-weaken
          (parse_list-Runs (λ _. parse_one_drop) write_one_drop (λ _. IsDrop) drop-Runs drops
            (length drops) c1 rest refl w.fit a1)
          refl λ c2 (s2, a2). (follow s1 s2, a2)
