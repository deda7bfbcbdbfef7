-- ===== src/Dispatch/Tests.antt =====
-- An event of dispatch.py's routes put into an empty queue twice.
use geoji_agent.Base.{refl, inl, inr, String, List, [], ◌∷◌, ◌≡◌, none, some, if◌then◌else◌, ◌==◌}
use geoji_agent.Base.Int.{ℤ, pos, negsuc}
use geoji_agent.Jobs.{Job}
use geoji_agent.Dispatch.{Payload, str, num, verdict_confirmed, insert, new_job}
use geoji_agent.Dispatch.Insert.{IsInserted, insert-IsInserted}

abbrev payload : Payload
payload = ("verdict_id", str "v1") ∷ ("verdict_version", num (pos 1)) ∷ []

abbrev show : ℤ → String
show (pos n) = if n == 1 then "1" else "many"
show (negsuc n) = "negative"

abbrev dumps : Payload → String
dumps [] = "{}"
dumps _ = "{...}"

abbrev queue : List Job
queue = new_job verdict_confirmed 5 10 "e" "sentence:v1:1" "v1" 1 "{...}" "t" ∷ []

-- The table's check refuses version 0, and its key an id that is there.
abbrev version_zero : Payload
version_zero = ("verdict_id", str "v2") ∷ ("verdict_version", num (pos 0)) ∷ []

refused : insert show dumps verdict_confirmed version_zero 6 10 "f" "t" queue ≡ none
unfolding insert
refused = refl

abbrev other : Payload
other = ("verdict_id", str "v2") ∷ ("verdict_version", num (pos 1)) ∷ []

taken : insert show dumps verdict_confirmed other 5 10 "f" "t" queue ≡ none
unfolding insert
taken = refl

again : insert show dumps verdict_confirmed payload 6 10 "f" "t" queue ≡ some (none, queue)
unfolding insert
again = refl

insert-IsInserted_example : IsInserted verdict_confirmed 5 10 [] queue
unfolding insert
insert-IsInserted_example =
    insert-IsInserted show dumps verdict_confirmed payload 5 10 "e" "t" [] 5 queue (inr (inl refl))
      refl
