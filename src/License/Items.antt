-- ===== src/License/Items.antt =====
-- The dictionary `logionLicenseItems` of packages/client/src/license/LogionClassification.ts.
use logion_api.Common.{String, List, [], ◌∷◌}

pub record Description : Type 0 where
  pub short_description : String
  pub description : String

-- Record<Language, LogionTransferredRightDescription>
pub record Translations : Type 0 where
  pub en : Description
  pub fr : Description

abbrev item_per_priv : Translations
item_per_priv = record {
  en = record {
    short_description = "PERSONAL, PRIVATE USE ONLY";
    description =
        "Use the Underlying Asset for your personal use, exclusively in private spheres and so long as that personal use is non-commercial, i.e. does not, directly or indirectly, result in compensation, financial benefit or commercial gain, To the extent that such use is non-commercial and private, you may use, reproduce, display and as necessary perform but not modify the Underlying Asset.";
  };
  fr = record {
    short_description = "USAGE PERSONNEL PRIVE";
    description =
        "Usage de l’Actif Sous-jacent pour votre usage privé, exclusivement dans une sphère privée dès lors que cet usage n’est pas de nature commerciale, c-à-d ne produit pas directement ou indirectement un gain commercial, une contrepartie financière ou une compensation. Sous condition que l’usage soit privé et non-commercial, vous pouvez utiliser, reproduire, représenter et le cas échéant exécuter mais non modifier l’Actif Sous-jacent. Tous types et tous supports de reproduction/représentation et exécution sont envisagés, connus ou inconnus, dès lors qu’ils sont compatibles avec l’usage dans la sphère privée.";
  };
}

abbrev item_per_pub : Translations
item_per_pub = record {
  en = record {
    short_description = "PERSONAL, PRIVATE, AND PUBLIC USE";
    description =
        "Use the Underlying Asset for your personal use, both in private and public spheres and so long as that personal use is non-commercial, i.e. does not, directly or indirectly, result in compensation, financial benefit or commercial gain, Includes the right to display the Underlying Assets as a profile picture or in the metaverse. To the extent that such use is non-commercial, you may use, reproduce, display and as necessary perform but not modify the Underlying Asset.";
  };
  fr = record {
    short_description = "USAGE PERSONNEL PRIVE ET PUBLIC";
    description =
        "Usage de l’Actif Sous-jacent pour votre usage privé, tant dans une sphère privée que publique, sous condition que l’usage personnel n’est pas de nature commerciale. c-à-d ne produit pas directement ou indirectement un gain commercial, une contrepartie financière ou une compensation. Comprend le droit de représenter l’Actif Sous-jacent comme image de profil sur les réseaux sociaux et dans le métavers. Sous condition que l’usage soit non-commercial, vous pouvez utiliser, reproduire, représenter et le cas échéant exécuter mais non modifier l’Actif Sous-jacent. Tous types et tous supports de reproduction/représentation et exécution sont envisagés, connus ou inconnus, dès lorsqu’ils ne sont pas de nature commerciale. Comprend la possibilité de concéder des sous-licences du droit de représentation à des tiers, telles les plateformes tierces.";
  };
}

abbrev item_com_nomod : Translations
item_com_nomod = record {
  en = record {
    short_description = "COMMERCIAL USE WITHOUT MODIFICATION";
    description =
        "Use the Underlying Asset for commercial use, i.e. directly or indirectly, results in compensation, financial benefit or commercial gain and may include promoting, marketing, advertising, and selling. Such commercial use includes the right to use, reproduce, display, distribute and as necessary perform, but not modify the Underlying Asset. Commercial use also confers personal, private and public use of the Underlying Asset. Includes the right to display the Underlying Asset as a profile picture, display on products or services using the Underlying Asset, display on sold merchandise, display in a physical or digital museum. Includes the right to sublicense such rights.";
  };
  fr = record {
    short_description = "USAGE COMMERCIAL SANS MODIFICATION ";
    description =
        "Usage de l’Actif Sous-jacent pour usage commercial, c-à-d produisant directement ou indirectement un gain commercial, une contrepartie financière ou une compensation et peut inclure la promotion, le marketing, la publicité, la vente. Vous pouvez utiliser, reproduire, représenter, communiquer/distribuer et le cas échéant exécuter mais non modifier l’Actif Sous-jacent. L’usage commercial comprend l’usage privé et public de l’Actif Sous-jacent. Comprend le droit de représenter l’Actif Sous-jacent comme image de profil sur les réseaux sociaux et dans le métavers. Comprend la reproduction/représentation sur des produits ou des services utilisant l’Actif Sous-jacent, la reproduction/représentation sur les produits de marchandising offerts en vente, la reproduction/représentation dans un musée physique ou virtuel. Comprend la possibilité de concéder des sous-licences. Tous types et tous supports de reproduction/représentation/exécution/communication/distribution/diffusion sont envisagés, connus ou inconnus, sans limitation.";
  };
}

abbrev item_com_mod : Translations
item_com_mod = record {
  en = record {
    short_description = "COMMERCIAL USE WITH THE RIGHT TO MODIFY";
    description =
        "Use the Underlying Asset for commercial use, i.e. directly or indirectly, results in compensation, financial benefit or commercial gain and may include promoting, marketing, advertising, and selling. Such commercial use includes the right to use, reproduce, display, distribute and as necessary perform and modify the Underlying Asset. Includes the right to adapt the Underlying Asset, i.e. to recast, transform, translate or adapt, including in any form recognizably derived from the original and in so doing create derivative works of art. Commercial use also confers personal, private and public use of the Underlying Asset. Includes the right to display the Underlying Asset as a profile picture, display on products or services using the Underlying Asset and/or its derivatives, display on sold merchandise, display in a physical or digital museum. Includes the right to sublicense such rights.";
  };
  fr = record {
    short_description = "USAGE COMMERCIAL AVEC DROIT DE MODIFICATION";
    description =
        "Usage de l’Actif Sous-jacent pour usage commercial, c-à-d produisant directement ou indirectement un gain commercial, une contrepartie financière ou une compensation et peut inclure la promotion, le marketing, la publicité, la vente. Vous pouvez utiliser, reproduire, représenter, communiquer/distribuer et le cas échéant exécuter et modifier l’Actif Sous-jacent. Comprend le droit d’adaptation de l’Actif Sous-jacent, c-à-d le droit de remanier, transformer, traduire ou adapter, inclusivement sous toutes formes qui dérivent de l’original de manière marquée, créant de ce fait des œuvres d’art dérivées. L’usage commercial comprend l’usage privé et public de l’Actif Sous-jacent. Comprend le droit de représenter l’Actif Sous-jacent comme image de profil sur les réseaux sociaux et dans le métavers. Comprend la reproduction/représentation sur des produits ou des services utilisant l’Actif Sous-jacent, la reproduction/représentation sur les produits de marchandising offerts en vente, la reproduction/représentation dans un musée physique ou virtuel. Comprend la possibilité de concéder des sous-licences. Tous types et tous supports de reproduction/représentation/exécution/communication/distribution/diffusion sont envisagés, connus ou inconnus, sans limitation.";
  };
}

abbrev item_ex : Translations
item_ex = record {
  en = record {
    short_description = "EXCLUSIVE USE";
    description =
        "The above-mentioned rights, as applicable, are exclusive in nature, i.e. are licensed and/or assigned to no other person or entity.";
  };
  fr = record {
    short_description = "USAGE EXCLUSIF";
    description =
        "Les droits mentionnés ci-dessus, selon qu’ils sont applicables, sont exclusifs, c'est à dire qu'ils ne peuvent pas être donnés en licence et/ou cédés à aucune autre personne physique ou morale.";
  };
}

abbrev item_noex : Translations
item_noex = record {
  en = record {
    short_description = "NON-EXCLUSIVE USE";
    description =
        "The above-mentioned rights, as applicable, are non-exclusive in nature, i.e. they can be licensed and/or assigned to other persons or entities.";
  };
  fr = record {
    short_description = "USAGE NON-EXCLUSIF";
    description =
        "Les droits mentionnés ci-dessus, selon qu’ils sont applicables, ne sont pas exclusifs, c-à-d qu’ils peuvent être donnés en licence et/ou cédés à d’autres personnes physiques ou morales.";
  };
}

abbrev item_ww : Translations
item_ww = record {
  en = record {
    short_description = "WORLDWIDE USE";
    description =
        "Covers use in all countries of the world, existing and future, not limited territorially.";
  };
  fr = record {
    short_description = "USAGE MONDIAL";
    description =
        "Comprend tous les pays du monde, existants ou futurs, sans limitation territoriale. Est censé être le plus extensif possible. Comprend l’usage sur l’internet, sur les réseaux sociaux, dans tous mondes virtuels et dans tous métavers, connus ou inconnus. L’usage mondial ne devra pas être sélectionné lorsqu’il s’agit d’un usage personnel et privé.";
  };
}

abbrev item_reg : Translations
item_reg = record {
  en = record {
    short_description = "COUNTRY-SPECIFIC OR REGIONAL USE";
    description =
        "Means that some territorial limitations apply. The list of allowed countries is recorded by the logion infrastructure.";
  };
  fr = record {
    short_description = "USAGE PAR PAYS/REGION";
    description =
        "Suppose que des limitations territoriales s’appliquent. La liste des pays autorisés est enregistrée par l’infrastructure Logion. Comprend l’usage sur l’internet, sur les réseaux sociaux, dans tous mondes virtuels et dans tous métavers, connus ou inconnus, sauf lorsqu’il s’agit d’un usage personnel et privé.";
  };
}

abbrev item_notime : Translations
item_notime = record {
  en = record {
    short_description = "FOR THE ENTIRE DURATION OF THE IP RIGHTS";
    description =
        "The duration of the IP rights contemplated - author rights and copyright - are for the entire life of the Creator and 70 years afterward, counted from the moment the work of art has been disclosed.";
  };
  fr = record {
    short_description = "POUR TOUTE LA DUREE DES DROITS";
    description =
        "La durée des droits de Propriété Intellectuelle – droits d’auteur et copyright – envisagée est pendant toute la vie de l’auteur et 70 ans après, décomptée à partir de la date de divulgation de l’œuvre.";
  };
}

abbrev item_time : Translations
item_time = record {
  en = record {
    short_description = "FOR A LIMITED PERIOD OF TIME";
    description =
        "Means that the license/assignment grant is limited in time as recorded by the logion infrastructure";
  };
  fr = record {
    short_description = "POUR UNE DUREE DETERMINEE";
    description =
        "Suppose que la licence/cession a une durée limitée, telle qu’enregistrée sur l’infrastructure Logion.";
  };
}

abbrev pub logion_license_items : List (String × Translations)
logion_license_items =
    ("PER-PRIV", item_per_priv)
    ∷ ("PER-PUB", item_per_pub)
    ∷ ("COM-NOMOD", item_com_nomod)
    ∷ ("COM-MOD", item_com_mod)
    ∷ ("EX", item_ex)
    ∷ ("NOEX", item_noex)
    ∷ ("WW", item_ww)
    ∷ ("REG", item_reg)
    ∷ ("NOTIME", item_notime)
    ∷ ("TIME", item_time)
    ∷ []
