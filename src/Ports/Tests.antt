-- ===== src/Ports/Tests.antt =====
-- The ports of two connections of a node.
use volga.Prelude.{string_eq, ◌≡◌, refl, [], ok}
use volga.Prelude.Dict
use volga.Ports.{is_used, first_free, gen_port}
use volga.Ports.Exclusive.{IsExclusive, IsGood, gen_port-IsGood}

none-IsExclusive : IsExclusive []
unfolding Dict.get
none-IsExclusive = record { exclusive = λ c d p n at_c at_d. cc }

first_answer : gen_port "a-b" "node" [] ≡ ok (1234, Dict.put "a-b" (1234, "node") [])
unfolding gen_port first_free is_used Dict.get
first_answer = refl

gen_port-IsGood_example : IsGood "a-b" "node" [] (1234, Dict.put "a-b" (1234, "node") [])
gen_port-IsGood_example =
    gen_port-IsGood "a-b" "node" [] (1234, Dict.put "a-b" (1234, "node") []) none-IsExclusive
      first_answer
