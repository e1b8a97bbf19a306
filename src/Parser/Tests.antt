-- ===== src/Parser/Tests.antt =====
-- A concrete manifest: the theorem at documents where its hypotheses hold.
use podman_swarm.Base.{◌≡◌, refl, some, Option, List, [], ◌∷◌, map, ok, err}
use podman_swarm.Base.Text.{Text, str, ◌==◌}
use podman_swarm.Base.Text.Affix.{has_prefix}
use podman_swarm.Kube.{Object, other_object}
use podman_swarm.Base.Text.Space.{trim_space}
use podman_swarm.Parser.{parse_manifest, parse_ingress, wrong_type}
use podman_swarm.Parser.Documents.{IsDocument, join_documents, parse_manifest-join_documents}

-- A decoder that takes every document for an object that the agent does not know.
abbrev decode : Text → Option Object
decode doc = some other_object

a-IsDocument : IsDocument decode (str "a ", other_object)
unfolding has_prefix trim_space ◌==◌
a-IsDocument = ((refl, (refl, tt)), (λ e. cc), refl)

b-IsDocument : IsDocument decode (str " b", other_object)
unfolding has_prefix trim_space ◌==◌
b-IsDocument = ((refl, (refl, tt)), (λ e. cc), refl)

abbrev documents : List (Text × Object)
documents = (str "a ", other_object) ∷ (str " b", other_object) ∷ []

parse_manifest-join_documents_example :
    parse_manifest decode (join_documents (map (λ d. d.0) documents))
    ≡ ok (map (λ d. d.1) documents)
parse_manifest-join_documents_example =
    parse_manifest-join_documents decode documents (a-IsDocument, (b-IsDocument, tt))

not_an_ingress : parse_ingress other_object ≡ err wrong_type
unfolding parse_ingress
not_an_ingress = refl
