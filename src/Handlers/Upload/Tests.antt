-- ===== src/Handlers/Upload/Tests.antt =====
-- An upload of two bytes, with a hash that is the file itself.
use pactum_codex.Base.{ℕ, ◌≡◌, refl, none, some, List, [], ◌∷◌}
use pactum_codex.State.World.{ok, OnOk}
use pactum_codex.State.Sample.{config}
use pactum_codex.Services.SolanaPay.{codes}
use pactum_codex.Services.Hash.{HashLibrary, verify_client_hash}
use pactum_codex.Services.Storage.{Reply, Network, upload_document, upload_to_ipfs, post_ipfs}
use pactum_codex.Handlers.Upload.{
  Field, file, client_hash, backend, Form, no_fields, read_field, read_fields,
  validate_and_upload_with_size_limit, upload_handler,
}
use pactum_codex.Handlers.Upload.Accepted.{IsAccepted, upload_handler-IsAccepted}

abbrev plain : HashLibrary
plain = record {
  sha256 = λ b. b;
  hex_encode = λ b. b;
  hex_decode = λ b. some b;
  decode-encode = λ b. refl;
}

-- Pinata answers with the status, and every JSON value is the text `c`.
abbrev answering : ℕ → Network
answering status = record {
  Json = ℕ;
  from_str = λ s. some 1;
  get = λ k n. some n;
  as_str = λ n. some (99 ∷ []);
  pinata = λ t b. Reply.replied status "" "";
  arweave = λ j b. Reply.unreachable "";
  file = λ p. none;
}

abbrev fields : List Field
fields =
    file (some (codes "image/png")) (some (1 ∷ 2 ∷ []))
    ∷ client_hash (some (1 ∷ 2 ∷ []))
    ∷ backend (some (codes "IPFS"))
    ∷ []

upload_handler-IsAccepted_example :
    OnOk (upload_handler plain (answering 200) config fields) (λ response.
      (form : Form) × (read_fields fields no_fields ≡ ok form)
      × IsAccepted plain (answering 200) config form response)
upload_handler-IsAccepted_example = upload_handler-IsAccepted plain (answering 200) config fields

stored :
    upload_handler plain (answering 200) config fields
    ≡ ok (record {
      storage_uri = codes "ipfs://c";
      content_hash = 1 ∷ 2 ∷ [];
      storage_backend = codes "ipfs";
    })
unfolding upload_handler read_fields read_field validate_and_upload_with_size_limit
    verify_client_hash upload_document upload_to_ipfs post_ipfs
stored = refl
