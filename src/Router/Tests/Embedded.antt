-- ===== src/Router/Tests/Embedded.antt =====
-- Embeddings that an upstream sends in another order, over a codec that writes an item with one value
-- as its index and the units of the value.
use go_feather_route.Prelude.{
  ℕ, ◌≡◌, refl, sym, ◌∙◌, ap, true, false, Option, none, some, List, [], ◌∷◌, Bytes, codes, str_eq,
}
use go_feather_route.Prelude.Float64.{Float64, finite, infinite, not_a_number}
use go_feather_route.Prelude.Int.{ℤ, pos, negsuc}
use go_feather_route.Prelude.Dict.{lookup, insert, lookup-insert, bytes_eq}
use go_feather_route.Wire.{object}
use go_feather_route.Contract.{EmbeddingData, Codec, decode_embedding_request, input_count}
use go_feather_route.Contract.Problems.{good}
use go_feather_route.Router.Embeddings.{normalize_embedding_response}
use go_feather_route.Router.Embeddings.Again.{
  IsLossless, IsForwarded, normalize_embedding_response-IsForwarded,
}
use go_feather_route.Provider.{ClientApi, ok}
use go_feather_route.Router.Server.{Server}
use go_feather_route.Router.Tests.Handlers.{server, answer}

abbrev put_value : ℕ → List Float64 → Option Bytes → Option Bytes
put_value n (finite false u ∷ []) (some rest) = some (n ∷ u ∷ rest)
put_value _ _ _ = none

abbrev print_item : ℤ → List Float64 → Option Bytes → Option Bytes
print_item (pos n) values rest = put_value n values rest
print_item (negsuc n) values rest = none

abbrev print_items : List EmbeddingData → Option Bytes
print_items [] = some []
print_items (item ∷ items) = print_item item.index item.embedding (print_items items)

abbrev put : ℕ → ℕ → Option (List EmbeddingData) → Option (List EmbeddingData)
put n u none = none
put n u (some items) = some (record { index = pos n; embedding = finite false u ∷ [] } ∷ items)

abbrev read_items : Bytes → Option (List EmbeddingData)
read_items [] = some []
read_items (n ∷ []) = none
read_items (n ∷ u ∷ rest) = put n u (read_items rest)

IsPut : ℕ → List Float64 → Option Bytes → Bytes → Type 0
IsPut n values rest text =
    (u : ℕ) × (more : Bytes) × (values ≡ finite false u ∷ [])
    × (rest ≡ some more)
    × (text ≡ n ∷ u ∷ more)

put_value-IsPut :
    (n : ℕ) (values : List Float64) (rest : Option Bytes) (text : Bytes)
    → put_value n values rest ≡ some text
    → IsPut n values rest text
unfolding IsPut
put_value-IsPut n [] rest text h = absurd (cc h)
put_value-IsPut n (finite true u ∷ l) rest text h = absurd (cc h)
put_value-IsPut n (finite false u ∷ []) none text h = absurd (cc h)
put_value-IsPut n (finite false u ∷ []) (some more) text h = (u, more, refl, refl, cc)
put_value-IsPut n (finite false u ∷ v ∷ l) rest text h = absurd (cc h)
put_value-IsPut n (infinite s ∷ l) rest text h = absurd (cc h)
put_value-IsPut n (not_a_number ∷ l) rest text h = absurd (cc h)

read_print_item :
    (index : ℤ) (values : List Float64) (items : List EmbeddingData) (text : Bytes)
    → ((more : Bytes) → print_items items ≡ some more → read_items more ≡ some items)
    → print_item index values (print_items items) ≡ some text
    → read_items text ≡ some (record { index = index; embedding = values } ∷ items)
unfolding IsPut
read_print_item (negsuc n) values items text rest h = absurd (cc h)
read_print_item (pos n) values items text rest h =
    let (u, more, same, printed, put) = put_value-IsPut n values (print_items items) text h in
    rw (put, same) (rw (rest more printed) refl)

read_print :
    (items : List EmbeddingData) (text : Bytes)
    → print_items items ≡ some text
    → read_items text ≡ some items
read_print [] text h = let same : [] ≡ text = cc in rw (← same) refl
read_print (item ∷ items) text h =
    read_print_item item.index item.embedding items text (read_print items) h

abbrev codec : Codec
codec = record {
  json = record {
    unmarshal_object = λ s. object ((codes "data", s) ∷ []);
    unmarshal_string = λ s. some s;
    marshal_string = λ s. s;
    marshal_object = lookup (codes "data");
  };
  unmarshal_chat = λ s. none;
  unmarshal_embedding = λ s. some (record { model = codes "fast"; input = codes "[1,2]" });
  unmarshal_array = λ s. some (codes "1" ∷ codes "2" ∷ []);
  unmarshal_data = read_items;
  marshal_data = print_items;
}

some-injective : (a b : Bytes) → some a ≡ some b → a ≡ b
some-injective a b h = cc

lossless : IsLossless codec
unfolding lookup str_eq insert
lossless = record {
  data_kept = read_print;
  field_kept = λ envelope value text h. (
    (codes "data", text) ∷ [],
    text,
    refl,
    lookup-insert (codes "data") (codes "data") text [],
    ap read_items (
        some-injective text value
          (sym h ∙ lookup-insert (codes "data") (codes "data") value envelope)),
  );
}

moved : normalize_embedding_response codec [] (1 ∷ 11 ∷ 0 ∷ 10 ∷ []) ≡ good (0 ∷ 10 ∷ 1 ∷ 11 ∷ [])
unfolding normalize_embedding_response lookup insert str_eq decode_embedding_request input_count
moved = refl

normalize_embedding_response-IsForwarded_example :
    (normalize_embedding_response codec [] (0 ∷ 10 ∷ 1 ∷ 11 ∷ []) ≡ good (0 ∷ 10 ∷ 1 ∷ 11 ∷ []))
    × IsForwarded codec [] (1 ∷ 11 ∷ 0 ∷ 10 ∷ []) (0 ∷ 10 ∷ 1 ∷ 11 ∷ [])
normalize_embedding_response-IsForwarded_example =
    normalize_embedding_response-IsForwarded codec lossless [] (1 ∷ 11 ∷ 0 ∷ 10 ∷ [])
      (0 ∷ 10 ∷ 1 ∷ 11 ∷ []) moved

abbrev vectors : ClientApi
vectors = record {
  provider_name = codes "local";
  chat = λ index id body stream. ok (answer []);
  embedding = λ index id body. ok (answer (1 ∷ 11 ∷ 0 ∷ 10 ∷ []));
}

abbrev embedder : Server
embedder = record server { providers = (codes "local", vectors) ∷ [] }
