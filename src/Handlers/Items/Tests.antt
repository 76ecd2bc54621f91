-- ===== src/Handlers/Items/Tests.antt =====
-- An id made from a random UUID.
use sync_bridge.Base.{[], arith}
use sync_bridge.Handlers.Items.{random_id}
use sync_bridge.Handlers.Items.RandomId.{IsPositive, eight, random_id-IsPositive}

random_id-IsPositive_example : IsPositive (random_id (eight 255 1 2 3 4 5 64 7 []))
random_id-IsPositive_example =
    random_id-IsPositive 255 1 2 3 4 5 64 7 [] (omega arith) (omega arith) (omega arith)
      (omega arith) (omega arith) (omega arith) (omega arith) (omega arith) (omega arith)
