-- ===== src/Tests/Registering.antt =====
-- components/message, router/dimensions and registry: the results at inputs.
use jackfield.Common.{◌≡◌, ◌≢◌, refl, ◌↔◌, [], ◌∷◌, true, none, some, Memᴰ, arith, if◌then◌else◌}
use jackfield.Platform.Sample.{fin, sample}
use jackfield.Message.{Message, Envelope, BusableItem, to_item, from_item}
use jackfield.Message.RoundTrip.{to_item-from_item}
use jackfield.Dimension.{DimState}
use jackfield.Dimension.Builtin.{
  producer_only, label_all_of, size_between, producer_evaluate, label_evaluate, size_evaluate,
}
use jackfield.Dimension.Builtin.Matching.{Decides, Named, Labelled, AtLeast, AtMost, filters-Decide}
use jackfield.Registry.{
  Registry, RegistrationEntry, register, deregister, hard_rejected, score_dims, new,
}
use jackfield.Registry.Ids.{IsValid, deregister_lem, ids}
use jackfield.Registry.Scoring.{soft_total, score_dims-eq}
use jackfield.Tests.Desk.{Desk, recorder}

abbrev hot : Message
hot = record { get_uuid = 7; get_labels = "hot" ∷ []; get_bytes = 1 ∷ 2 ∷ [] }

abbrev parcel : Envelope
parcel = record { origin = record { as_str = "sensor" }; message = hot }

abbrev nameless : BusableItem
nameless = record { uuid = []; labels = "hot" ∷ []; payload = [] }

to_item-from_item_example : to_item (from_item nameless) ≡ record nameless { uuid = 0 ∷ [] }
to_item-from_item_example = (to_item-from_item nameless).1 refl

abbrev heavy : DimState
heavy = record { weight = fin 99_000; inner = tt }

filters-Decide_example :
    Decides
      (Named (producer_only "sensor").matcher "sensor")
      (producer_evaluate (producer_only "sensor") parcel heavy)
    × Decides
        (Labelled (label_all_of ("hot" ∷ "dry" ∷ [])).matcher ("hot" ∷ []))
        (label_evaluate (label_all_of ("hot" ∷ "dry" ∷ [])) parcel heavy)
    × Decides
        (AtLeast (size_between 1 4).min 2 × AtMost (size_between 1 4).max 2)
        (size_evaluate (size_between 1 4) parcel heavy)
filters-Decide_example =
    filters-Decide (producer_only "sensor") (label_all_of ("hot" ∷ "dry" ∷ [])) (size_between 1 4)
      parcel heavy

abbrev single : Registry Desk
unfolding register
single = (register new (recorder 1)).0

deregister_lem_example :
    let (r', removed) = deregister single 0 in
    IsValid r'
    × ((removed ≡ true) ↔ Memᴰ 0 (ids single.entries))
    × ((x : RegistrationEntry Desk) → Memᴰ x r'.entries ↔ (Memᴰ x single.entries × (x.id ≢ 0)))
unfolding single
deregister_lem_example = deregister_lem single 0 (omega arith)

score_dims-eq_example :
    score_dims parcel (fin 0) []
    ≡ (if hard_rejected parcel [] then none else some (soft_total parcel (fin 0) []))
score_dims-eq_example = score_dims-eq parcel (fin 0) []
