-- ===== src/IoQueue/Tests.antt =====
-- A short run of the ring, and the theorems at it.
use zy_os.Base.{◌≡◌, refl, none, some, [], ◌∷◌, true, arith, length, ok, ◌==◌, if◌then◌else◌}
use zy_os.IoQueue.{IoQueue, ioq_full, ioq_empty}
use zy_os.IoQueue.Fifo.{contents, full_empty_lem}

-- Two characters, the second round the end of the array, and a blocked producer.
abbrev wrapped : IoQueue
wrapped = record {
  lock = none;
  producer = some 5;
  consumer = none;
  buf = λ i. if i == 63 then 7 else 8;
  head = 1;
  tail = 63;
}

abbrev empty : IoQueue
empty = record wrapped { producer = none; head = 3; tail = 3 }

abbrev full : IoQueue
full = record wrapped { producer = none; head = 2; tail = 3 }

contents-wrapped : contents wrapped ≡ 7 ∷ 8 ∷ []
contents-wrapped = refl

full_empty_lem_example :
    (ioq_full true full ≡ ok (length (contents full) == 63))
    × (ioq_empty true full ≡ ok (length (contents full) == 0))
full_empty_lem_example = full_empty_lem full (omega arith)
