-- ===== src/Receipt/CopyTests.antt =====
-- The subtypes of documents of concrete streams.
use commercial_rchproxy.Common.{none, some, List, [], ◌∷◌, codes, ◌≡◌, refl}
use commercial_rchproxy.Framing.Types.{RchFrame}
use commercial_rchproxy.Receipt.Budget.{new_budget}
use commercial_rchproxy.Receipt.Model.{ParsedReceipt}
use commercial_rchproxy.Receipt.Assembly.{parse_documents}
use commercial_rchproxy.Receipt.Messages.{inferred}
use commercial_rchproxy.Receipt.Subtypes.{
  documento_commerciale_subtype, copia_conforme, preconto, assign_document_subtypes,
}
use commercial_rchproxy.Receipt.Copies.{Related, assign_document_subtypes-Related}
use commercial_rchproxy.Receipt.DocumentTests.{request}

-- A sale, and the same item printed again with its total and its payment.
abbrev sale : List RchFrame
sale =
    request 1 (codes "=K")
    ∷ request 2 (codes "=R1/$250/(Caffe)")
    ∷ request 3 (codes "=T1/$250")
    ∷ request 4 (codes "<</?s")
    ∷ request 5 (codes "<</?7")
    ∷ request 6 (codes "=o")
    ∷ request 7 (codes "=\"/(CAFFE  2,50 B)")
    ∷ request 8 (codes "=\"/(TOT EURO 2,50)/*2")
    ∷ request 9 (codes "=\"/(CONTANTI  2,50)")
    ∷ []

abbrev documents : List ParsedReceipt
documents = (parse_documents sale 5 (new_budget 100)).documents

abbrev by_words : List RchFrame
by_words = request 1 (codes "=o") ∷ request 2 (codes "=\"/(  * Preconto *)") ∷ []

copied :
    assign_document_subtypes documents
    ≡ record {
      subtype = documento_commerciale_subtype;
      subtype_evidence = inferred;
      copy_of = none;
    }
      ∷ record { subtype = copia_conforme; subtype_evidence = inferred; copy_of = some 1 }
      ∷ []
unfolding assign_document_subtypes parse_documents
copied = refl

named :
    assign_document_subtypes (parse_documents by_words 5 (new_budget 100)).documents
    ≡ record { subtype = preconto; subtype_evidence = inferred; copy_of = none } ∷ []
unfolding assign_document_subtypes parse_documents
named = refl

assign_document_subtypes-Related_example : Related [] documents (assign_document_subtypes documents)
assign_document_subtypes-Related_example = assign_document_subtypes-Related documents
