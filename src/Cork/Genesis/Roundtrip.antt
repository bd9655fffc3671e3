-- ===== src/Cork/Genesis/Roundtrip.antt =====
-- Exporting the state of x/cork, and loading it again.
use sommelier.Base.{
  ◌≡◌, ◌≢◌, refl, String, none, some, List, [], ◌∷◌, map, All, arith, Option-cases, Bool-cases,
  List-cases, inl, inr, ◌==◌, nat_eq,
}
use sommelier.Base.Table.Prefix.{is_some}
use sommelier.Base.Exec.{Failure, foreign, ok, panic, for_each}
use sommelier.Base.Table.{Table, Entries, values}
use sommelier.Base.Table.Ordered.{Ordered, text_key}
use sommelier.Base.Table.Text.{text_laws}
use sommelier.Base.Table.Refill.{fill, fill-nil}
use sommelier.Sdk.{Sdk}
use sommelier.Cork.Types.{
  Bridge, ScheduledKey, Cork, Error, CorkResult, Corks, id_hash, set_cork_result,
}
use sommelier.Cork.Scheduling.{validate_cork}
use sommelier.Cork.Reading.{scheduled_of}
use sommelier.Cork.Validate.{Readers, validate_params, validate_genesis, validate_scheduled_cork}
use sommelier.Cork.Genesis.{
  Module, load_results, load_scheduled, set_params, init_genesis, export_genesis,
}

module _ ⦃sdk : Sdk⦄ (b : Bridge sdk.Decimal) (r : Readers) where
  -- Every result is stored under the id of its cork.
  abbrev pub ResultsKeyed : Corks b.Address → Type 0
  ResultsKeyed s = Entries (λ id c. id_hash b c.block_height c.cork ≡ id) s.results

  -- The stored ids are texts that addresses have.
  abbrev pub Canonical : List String → Type 0
  Canonical ids = All (λ i. b.address_text (b.hex_to_address i) ≡ i) ids

  load_results-fill :
      (t : Table String CorkResult) (s : Corks b.Address)
      → Entries (λ id c. id_hash b c.block_height c.cork ≡ id) t
      → load_results b r (values t) s ≡ record s { results = fill s.results t }
  unfolding load_results fill
  load_results-fill [] s h = refl
  load_results-fill ((id, c) ∷ t) s h =
      ground (arith, h.0, load_results-fill t (set_cork_result id c s) h.1)

  texts_back :
      (ids : List String) → Canonical ids → map b.address_text (map b.hex_to_address ids) ≡ ids
  texts_back [] h = refl
  texts_back (i ∷ ids) h = ground (arith, h.0, texts_back ids h.1)

  -- If no cork is scheduled, the parameters are ones that the subspace accepts, the results ascend
  -- under their corks' ids and the cellars' ids are texts of addresses, then loading the exported
  -- genesis into a module without results gives the module's state back, but for the corks that are
  -- scheduled and the validators' counts, which stay those of the module that is loaded into.
  pub init_genesis-export_genesis :
      (s t : Module b r)
      → s.corks.scheduled ≡ []
      → validate_params s.params ≡ none
      → ResultsKeyed s.corks
      → Ordered s.corks.results
      → Canonical s.corks.cellar_ids
      → t.corks.results ≡ []
      → init_genesis b r (export_genesis b r s) t ≡ (
        ok tt,
        record s {
          corks = record s.corks { scheduled = t.corks.scheduled; counts = t.corks.counts };
        },
      )
  unfolding init_genesis export_genesis set_params for_each
  init_genesis-export_genesis s t none_left valid keyed ordered canonical empty = ground (
    arith,
    none_left,
    valid,
    empty,
    texts_back s.corks.cellar_ids canonical,
    fill-nil text_laws s.corks.results ordered,
    load_results-fill s.corks.results
        (record s.corks { results = []; scheduled = t.corks.scheduled; counts = t.corks.counts })
        keyed,
  )

  -- An exported cork has an id of 32 bytes, and the check wants 64.
  short_id :
      (e : ScheduledKey b.Address × Cork)
      → r.byte_length e.0.1.0 ≡ 32
      → (e' : Failure Error) × (validate_scheduled_cork b r (scheduled_of b r e) ≡ some e')
  unfolding validate_scheduled_cork
  short_id e len = elim (Option-cases (validate_cork b e.1)) [
    | inr (x, h) ↦ (x, rw h refl)
    | inl h ↦ elim (Bool-cases (e.0.0 == 0)) [
      | inl z ↦ (foreign, ground (arith, h, z))
      | inr z ↦ elim (Bool-cases (is_some (r.val_from_bech32 (r.val_text e.0.1.1.0)))) [
        | inl v ↦ (foreign, ground (arith, h, z, v, len))
        | inr v ↦ (foreign, ground (arith, h, z, v))
      ]
    ]
  ]

  -- A list with a scheduled cork at its head.
  head_fails :
      (s t : Module b r) (e : ScheduledKey b.Address × Cork)
      (rest : Table (ScheduledKey b.Address) Cork)
      → ((val : String) → r.val_from_hex (r.val_text val) ≡ none)
      → r.byte_length e.0.1.0 ≡ 32
      → s.corks.scheduled ≡ e ∷ rest
      → (validate_genesis b r (export_genesis b r s) ≢ none)
        × ((init_genesis b r (export_genesis b r s) t).0 ≡ panic)
  unfolding validate_genesis export_genesis init_genesis for_each load_scheduled set_params
  head_fails s t e rest hex len h =
      let (x, bad) = short_id e len in
      (λ v. ground (arith, h, bad, v), ground (arith, h, hex e.0.1.1.0))

  -- If a validator's text is never hexadecimal and the ids under which the corks are scheduled have 32
  -- bytes each, then the exported genesis of a module with a scheduled cork does not validate, and
  -- loading it anywhere panics.
  pub export_genesis-fails :
      (s t : Module b r)
      → ((val : String) → r.val_from_hex (r.val_text val) ≡ none)
      → All (λ e. r.byte_length e.0.1.0 ≡ 32) s.corks.scheduled
      → s.corks.scheduled ≢ []
      → (validate_genesis b r (export_genesis b r s) ≢ none)
        × ((init_genesis b r (export_genesis b r s) t).0 ≡ panic)
  export_genesis-fails s t hex len scheduled = elim (List-cases s.corks.scheduled) [
    | inl h ↦ absurd (scheduled h)
    | inr (e, rest, h) ↦
        let lengths : All (λ e. r.byte_length e.0.1.0 ≡ 32) (e ∷ rest) = rw h at len in
        head_fails s t e rest hex lengths.0 h
  ]
