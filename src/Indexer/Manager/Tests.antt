-- ===== src/Indexer/Manager/Tests.antt =====
-- A vault that is registered twice, removed, and registered again, beside another.
use ragamuffin.Base.{ℕ, ◌≡◌, refl, false, none, some, List, [], ◌∷◌}
use ragamuffin.Text.{Text, codes, same_text}
use ragamuffin.Text.Maps.{lookup, insert, delete}
use ragamuffin.Indexer.Manager.{
  Manager, new_manager, add, get, get_client, get_llm, add_fact_client, set_llm, set_embedder,
  remove, vault_names, Call, call_add, call_set_llm, call_remove, after, after_all,
}
use ragamuffin.Indexer.Manager.Vault.{no_vault, own_calls, own_call, vault_of_call, first_of}
use ragamuffin.Indexer.Manager.Laws.{Answers, Answers-new_manager}

program : Unit {0}
unfolding new_manager add get get_client get_llm add_fact_client set_llm set_embedder remove
    vault_names after after_all lookup insert delete same_text own_calls own_call vault_of_call
    first_of no_vault
program = tt

abbrev notes : Text
notes = codes "notes"

abbrev twice : List (Call ℕ ℕ ℕ ℕ)
twice =
    call_add notes 1 2
    ∷ call_add (codes "work") 3 4
    ∷ call_add notes 5 6
    ∷ call_set_llm notes (some 7)
    ∷ []

abbrev again : List (Call ℕ ℕ ℕ ℕ)
again =
    call_add notes 1 2
    ∷ call_set_llm notes (some 7)
    ∷ call_remove notes
    ∷ call_remove (codes "work")
    ∷ call_add notes 5 6
    ∷ []

abbrev manager : Manager ℕ ℕ ℕ ℕ
manager = new_manager ℕ ℕ ℕ ℕ

-- The second registration of a name is refused.
refused : (add ℕ ℕ ℕ ℕ (after_all ℕ ℕ ℕ ℕ manager twice) notes 5 6).1 ≡ false
unfolding program
refused = refl

first_stays : get_client ℕ ℕ ℕ ℕ (after_all ℕ ℕ ℕ ℕ manager twice) notes ≡ some 2
unfolding program
first_stays = refl

-- A vault that is registered again has no client of a language model from before.
forgotten : get_llm ℕ ℕ ℕ ℕ (after_all ℕ ℕ ℕ ℕ manager again) notes ≡ none
unfolding program
forgotten = refl

registered_again : get ℕ ℕ ℕ ℕ (after_all ℕ ℕ ℕ ℕ manager again) notes ≡ some 5
unfolding program
registered_again = refl

Answers-new_manager_example :
    Answers ℕ ℕ ℕ ℕ
      (after_all ℕ ℕ ℕ ℕ manager again)
      notes
      (own_calls ℕ ℕ ℕ ℕ notes (no_vault ℕ ℕ ℕ ℕ) again)
Answers-new_manager_example = Answers-new_manager ℕ ℕ ℕ ℕ notes again
